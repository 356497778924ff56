-- ===== src/Api/Query/Sent.antt =====
-- What `parseMessagesQuery` of internal/api/router.go makes of the query that `listMessages` of
-- frontend/src/api.ts sends.
use text.Mathlib.TextLemmas.{cons≢nil}
use mathlib.Core.List.{append-nil, append_assoc}
use logthing.Prelude.{
  ℕ, ◌≤◌, ◌<◌, String, ◌≡◌, ◌≢◌, refl, sym, ap, ◌∙◌, false, Option, none, List, [], ◌∷◌, ◌++◌, ◌==◌,
  eq_iff, any, All, arith,
}
use logthing.Prelude.Int.{pos}
use logthing.Prelude.Text.{decimal, trim}
use logthing.Prelude.Text.Decimal.{
  int_limit, IsNumeral, decimal-IsNumeral, atoi-decimal, trim-numeral,
}
use logthing.Frontend.Api.{trim_js, ListMessagesParams, messages_query}
use logthing.Frontend.Api.Laws.{sent_hosts, query_values, messages_query_lem, messages_query_only}
use logthing.Frontend.Hosts.{includes}
use logthing.Frontend.Hosts.Laws.{IsDistinct}
use logthing.Storage.Filter.{trim_space}
use logthing.Api.Query.{
  max_message_limit, ok, first_or_blank, parse_limit, parse_offset, clean_from, clean_query_values,
  parse_optional_time, parse_messages_query,
}

-- Hosts that arrive as they are: none is blank or comes twice, and neither side's trimming changes
-- one. (The two sides trim different characters: U+FEFF and U+0085.)
pub record AreSendable (hosts : List String) : Type 0 where
  pub nonblank : All (λ h. (h == "") ≡ false) hosts
  pub trimmed : All (λ h. trim_js h ≡ h) hosts
  pub go_trimmed : All (λ h. trim_space h ≡ h) hosts
  pub distinct : IsDistinct hosts

sent_hosts_same :
    (hosts : List String)
    → All (λ h. (h == "") ≡ false) hosts
    → All (λ h. trim_js h ≡ h) hosts
    → sent_hosts hosts ≡ hosts
sent_hosts_same [] n t = refl
sent_hosts_same (h ∷ hosts) (n, ns) (t, ts) = rw (t, n, sent_hosts_same hosts ns ts)

not_seen :
    (host : String) (seen hosts : List String)
    → includes hosts host ≡ false
    → All (λ h. any (λ v. v == h) seen ≡ false) hosts
    → All (λ h. any (λ v. v == h) (host ∷ seen) ≡ false) hosts
not_seen host seen [] n s = tt
not_seen host seen (h ∷ hosts) n (s, ss) =
    (ground (arith, eq_iff host h, eq_iff h host), not_seen host seen hosts (ground arith) ss)

clean_from-sendable :
    (seen cleaned hosts : List String)
    → All (λ h. (h == "") ≡ false) hosts
    → All (λ h. trim_space h ≡ h) hosts
    → IsDistinct hosts
    → All (λ h. any (λ v. v == h) seen ≡ false) hosts
    → clean_from seen cleaned hosts ≡ cleaned ++ hosts
unfolding clean_from
clean_from-sendable seen cleaned [] n t d s = sym (append-nil cleaned)
clean_from-sendable seen cleaned (h ∷ hosts) (n, ns) (t, ts) (d, ds) (s, ss) =
    rw (t, n, s)
      (clean_from-sendable (h ∷ seen) (cleaned ++ h ∷ []) hosts ns ts ds
          (not_seen h seen hosts d ss)
        ∙ append_assoc cleaned (h ∷ []) hosts)

clean_query_values-sendable :
    (hosts : List String) → AreSendable hosts → clean_query_values (sent_hosts hosts) ≡ hosts
unfolding clean_query_values
clean_query_values-sendable hosts h =
    ap clean_query_values (sent_hosts_same hosts h.nonblank h.trimmed)
    ∙ clean_from-sendable [] [] hosts h.nonblank h.go_trimmed h.distinct (all_new hosts)
  where
    all_new : (hosts : List String) → All (λ h. any (λ v. v == h) [] ≡ false) hosts
    all_new [] = tt
    all_new (h ∷ hosts) = (refl, all_new hosts)

numeral_not_blank : (s : String) → IsNumeral s → (s == "") ≡ false
numeral_not_blank String.[] h = elim h [ ]
numeral_not_blank (String.◌∷◌ c s) h = of_ne (String.◌∷◌ c s) cons≢nil
  where
    of_ne : (t : String) → t ≢ "" → (t == "") ≡ false
    of_ne t ne = ground (arith, eq_iff t "", ne)

first_or_blank-query_values : (query : String) → first_or_blank (query_values query) ≡ trim_js query
first_or_blank-query_values query = ground (arith, eq_iff (trim_js query) "")

parse_limit-decimal :
    (n : ℕ) → 0 < n → n ≤ max_message_limit → parse_limit (trim_space (decimal n)) ≡ ok n
unfolding parse_limit
parse_limit-decimal n h k =
    rw
      (
        trim-numeral (decimal n) (decimal-IsNumeral n),
        numeral_not_blank (decimal n) (decimal-IsNumeral n),
        atoi-decimal n (omega arith),
      )
      (ground arith)

parse_offset-decimal : (n : ℕ) → n < int_limit → parse_offset (trim_space (decimal n)) ≡ ok n
unfolding parse_offset
parse_offset-decimal n h = rw (
  trim-numeral (decimal n) (decimal-IsNumeral n),
  numeral_not_blank (decimal n) (decimal-IsNumeral n),
  atoi-decimal n h,
)

module _ (parse_time : String → Option ℕ) where
  -- The server reads what the browser asked for: the limit and the offset, the text trimmed, the
  -- chosen hosts, and no span of time. The limit is one that the server takes, the offset fits an
  -- `int`, and the hosts arrive as they are.
  pub parse_messages_query-messages_query :
      (p : ListMessagesParams)
      → 0 < p.limit
      → p.limit ≤ max_message_limit
      → p.offset < int_limit
      → AreSendable p.hosts
      → parse_messages_query parse_time (messages_query p)
        ≡ ok (record {
          text = trim_js p.query;
          hosts = p.hosts;
          limit = pos p.limit;
          offset = pos p.offset;
          since = none;
          until = none;
        })
  unfolding parse_messages_query parse_optional_time trim
  parse_messages_query-messages_query p l l' o h =
      let (limit, offset, host, text) = messages_query_lem p in
      let since = messages_query_only p "since" refl refl refl refl in
      let until = messages_query_only p "until" refl refl refl refl in
      rw (
        limit,
        offset,
        host,
        text,
        since,
        until,
        parse_limit-decimal p.limit l l',
        parse_offset-decimal p.offset o,
        clean_query_values-sendable p.hosts h,
        first_or_blank-query_values p.query,
      )
