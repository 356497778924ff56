-- ===== src/Incidents/Classify.antt =====
-- `classify` of internal/incidents/engine.go: which messages are evidence, and of what.
use logthing.Prelude.{
  ℕ, String, Bool, true, false, not, ◌&&◌, ◌||◌, Option, none, some, List, [], ◌∷◌, ◌==◌, leb, eqb,
  if◌then◌else◌,
}
use logthing.Prelude.Text.{go_space, trim, strip_prefix, strip_suffix, cut, all_chars, concat}
use logthing.Model.{Message}

pub record Evidence : Type 0 where
  pub hostname : String
  pub iface : String
  pub online : Bool
  pub at : ℕ
  pub message_id : String
  pub source_ref : String
  pub reachability : Bool
  pub observe_only : Bool

-- `strings.TrimSpace`
abbrev trim_space : String → String
trim_space = trim go_space

abbrev digits_only : String → Bool
digits_only line = not (line == "") && all_chars (λ c. leb b'0' c && leb c b'9') line

-- The line number between "(repeater.lua:" and ") ".
abbrev repeater_line : Option String → Bool
repeater_line none = false
repeater_line (some rest) = elim (strip_suffix ") " rest) [
  | none ↦ false
  | some line ↦ digits_only line
]

unfoldable pub valid_repeater_prefix : String → Bool
unfolding strip_prefix strip_suffix
valid_repeater_prefix value = repeater_line (strip_prefix "(repeater.lua:" value)

-- The evidence of a message before its kind is filled in.
abbrev evidence_of : String → Message → String → Evidence
evidence_of hostname message iface = record {
  hostname = hostname;
  iface = iface;
  online = false;
  at = message.received_at;
  message_id = message.id;
  source_ref = "";
  reachability = false;
  observe_only = false;
}

module _ (iface : String) (hostname : String) (message : Message) where
  -- The loop over the interfaces in a "netifd" message.
  unfoldable pub classify_netifd : String → List String → Option Evidence
  classify_netifd status [] = none
  classify_netifd status (candidate ∷ rest) =
      let down =
        status == concat ("Interface '" ∷ candidate ∷ "' is now down" ∷ [])
        || (candidate == iface
            && status == concat ("Interface '" ∷ candidate ∷ "' has lost the connection" ∷ [])) in
      let up = status == concat ("Interface '" ∷ candidate ∷ "' is now up" ∷ []) in
      let later = classify_netifd status rest in
      if down || up
      then some (record (evidence_of hostname message candidate) { online = up })
      else later

  -- A switch to the backup, after a valid prefix and with nothing behind it.
  abbrev starlink_switch : String → Bool
  starlink_switch status = elim (cut "switch to STARLINK" status) [
    | none ↦ false
    | some (before, after) ↦
        valid_repeater_prefix before
        && trim_space (concat ("switch to STARLINK" ∷ after ∷ [])) == "switch to STARLINK"
  ]

  abbrev status_word : String → Option (String × String) → Option String
  status_word candidate none = none
  status_word candidate (some (before, after)) =
      let state = trim_space after in
      if valid_repeater_prefix before && (state == "offline" || state == "online")
      then some state
      else none

  -- The loop over the interfaces in a "gl-repeater" message.
  unfoldable pub classify_repeater : String → List String → Option Evidence
  classify_repeater status [] = none
  classify_repeater status (candidate ∷ rest) =
      let later = classify_repeater status rest in
      elim (status_word candidate
        (cut (concat ("interface " ∷ candidate ∷ " status " ∷ [])) status)) [
          | none ↦ later
          | some state ↦ some (record (evidence_of hostname message candidate) {
            online = state == "online";
            reachability = true;
          })
        ]

  unfoldable pub classify_tag : Option Evidence
  unfolding classify_netifd classify_repeater
  classify_tag =
      let status = trim_space message.message in
      if message.tag == "netifd"
      then classify_netifd status (iface ∷ "wwan" ∷ "tethering" ∷ [])
      else if not (message.tag == "gl-repeater")
      then none
      else if starlink_switch status
      then some (record (evidence_of hostname message "wwan") { observe_only = true })
      else classify_repeater status (iface ∷ "wwan" ∷ [])

unfoldable pub classify : Message → String → Option Evidence
unfolding classify_tag
classify message iface =
    let hostname = trim_space message.hostname in
    if hostname == "" || eqb message.received_at 0
    then none
    else classify_tag iface hostname message
