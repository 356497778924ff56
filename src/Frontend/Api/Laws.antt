-- ===== src/Frontend/Api/Laws.antt =====
-- The query that `listMessages` of frontend/src/api.ts sends.
use mathlib.Core.List.{append-nil, append_assoc}
use logthing.Prelude.{
  String, ◌≡◌, refl, ◌∙◌, ap, true, false, not, List, [], ◌∷◌, ◌++◌, ◌==◌, eq_iff, keep, map, arith,
  if◌then◌else◌, Bool-cases, inl, inr,
}
use logthing.Prelude.Text.{decimal}
use logthing.Frontend.Api.{
  trim_js, Params, append, has, replace, set, get_all, ListMessagesParams, append_hosts,
  messages_query,
}

get_all-append :
    (m name value : String) (ps : Params)
    → get_all m (append name value ps) ≡ get_all m ps ++ (if name == m then value ∷ [] else [])
get_all-append m name value [] = ground arith
get_all-append m name value ((n, v) ∷ ps) = ground (arith, get_all-append m name value ps)

get_all-without :
    (m name : String) (ps : Params)
    → get_all m (keep (λ (p : String × String). not (p.0 == name)) ps)
      ≡ (if m == name then [] else get_all m ps)
get_all-without m name [] = ground arith
get_all-without m name ((n, v) ∷ ps) =
    ground (arith, get_all-without m name ps, eq_iff n name, eq_iff n m, eq_iff m name)

get_all-replace :
    (m name value : String) (ps : Params)
    → has name ps ≡ true
    → get_all m (replace name value ps) ≡ (if m == name then value ∷ [] else get_all m ps)
get_all-replace m name value [] h = cc
get_all-replace m name value ((n, v) ∷ ps) h = ground (
  arith,
  get_all-replace m name value ps,
  get_all-without m name ps,
  eq_iff n name,
  eq_iff n m,
  eq_iff m name,
  eq_iff name m,
)

get_all-absent : (name : String) (ps : Params) → has name ps ≡ false → get_all name ps ≡ []
get_all-absent name [] h = refl
get_all-absent name ((n, v) ∷ ps) h = ground (arith, get_all-absent name ps)

-- After `set` the name has the one value, and the other names have what they had.
get_all-set :
    (m name value : String) (ps : Params)
    → get_all m (set name value ps) ≡ (if m == name then value ∷ [] else get_all m ps)
unfolding set
get_all-set m name value ps = elim (Bool-cases (has name ps)) [
  | inl e ↦ rw e (get_all-replace m name value ps e)
  | inr e ↦ rw e (
      get_all-append m name value ps
      ∙ ground (
        arith,
        eq_iff name m,
        eq_iff m name,
        get_all-absent name ps e,
        append-nil (get_all m ps),
      ))
]

-- The hosts that a request names.
abbrev pub sent_hosts : List String → List String
sent_hosts hosts = keep (λ h. not (h == "")) (map trim_js hosts)

get_all-append_hosts :
    (m : String) (hosts : List String) (ps : Params)
    → get_all m (append_hosts hosts ps)
      ≡ get_all m ps ++ (if "host" == m then sent_hosts hosts else [])
unfolding append_hosts
get_all-append_hosts m [] ps = ground (arith, append-nil (get_all m ps))
get_all-append_hosts m (host ∷ hosts) ps = elim (Bool-cases (trim_js host == "")) [
  | inl e ↦ rw e (get_all-append_hosts m hosts ps)
  | inr e ↦ rw e (
      get_all-append_hosts m hosts (append "host" (trim_js host) ps)
      ∙ ap (λ l. l ++ (if "host" == m then sent_hosts hosts else []))
          (get_all-append m "host" (trim_js host) ps)
      ∙ append_assoc (get_all m ps) _ _
      ∙ ap (◌++◌ (get_all m ps)) (ground arith))
]

module _ (p : ListMessagesParams) where
  abbrev with_hosts : Params
  with_hosts =
      append_hosts p.hosts (set "offset" (decimal p.offset) (set "limit" (decimal p.limit) []))

  limit_value : get_all "limit" with_hosts ≡ decimal p.limit ∷ []
  limit_value = simp (get_all-append_hosts, get_all-set)

  offset_value : get_all "offset" with_hosts ≡ decimal p.offset ∷ []
  offset_value = simp (get_all-append_hosts, get_all-set)

  host_values : get_all "host" with_hosts ≡ sent_hosts p.hosts
  host_values = simp (get_all-append_hosts, get_all-set)

  text_values : get_all "q" with_hosts ≡ []
  text_values = simp (get_all-append_hosts, get_all-set)

abbrev pub query_values : String → List String
query_values query = if trim_js query == "" then [] else trim_js query ∷ []

-- The request of `listMessages` has one limit and one offset, in decimal; as hosts the given ones
-- that are not blank, trimmed and in their order; and a text, trimmed, unless that is blank.
pub messages_query_lem :
    (p : ListMessagesParams)
    → let q = messages_query p in
      (get_all "limit" q ≡ decimal p.limit ∷ [])
      × (get_all "offset" q ≡ decimal p.offset ∷ [])
      × (get_all "host" q ≡ sent_hosts p.hosts)
      × (get_all "q" q ≡ query_values p.query)
unfolding messages_query
messages_query_lem p = elim (Bool-cases (trim_js p.query == "")) [
  | inl e ↦ rw e (limit_value p, offset_value p, host_values p, text_values p)
  | inr e ↦
      let text = trim_js p.query in
      rw e (
        get_all-set "limit" "q" text (with_hosts p) ∙ limit_value p,
        get_all-set "offset" "q" text (with_hosts p) ∙ offset_value p,
        get_all-set "host" "q" text (with_hosts p) ∙ host_values p,
        get_all-set "q" "q" text (with_hosts p),
      )
]

-- No other parameter is in the request.
pub messages_query_only :
    (p : ListMessagesParams) (m : String)
    → ("limit" == m) ≡ false
    → ("offset" == m) ≡ false
    → ("host" == m) ≡ false
    → ("q" == m) ≡ false
    → get_all m (messages_query p) ≡ []
unfolding messages_query
messages_query_only p m l o h q = elim (Bool-cases (trim_js p.query == "")) [
  | inl e ↦ rw e (others l o h q)
  | inr e ↦ rw e (
      get_all-set m "q" (trim_js p.query) (with_hosts p)
      ∙ ground (arith, eq_iff m "q", eq_iff "q" m, others l o h q))
]
  where
    others :
        ("limit" == m) ≡ false
        → ("offset" == m) ≡ false
        → ("host" == m) ≡ false
        → ("q" == m) ≡ false
        → get_all m (with_hosts p) ≡ []
    others l o h q =
        get_all-append_hosts m p.hosts
          (set "offset" (decimal p.offset) (set "limit" (decimal p.limit) []))
        ∙ ground (
          arith,
          get_all-set m "offset" (decimal p.offset) (set "limit" (decimal p.limit) []),
          get_all-set m "limit" (decimal p.limit) [],
          eq_iff m "offset",
          eq_iff "offset" m,
          eq_iff m "limit",
          eq_iff "limit" m,
        )
