-- ===== src/Frontend/Hosts.antt =====
-- The host lists of frontend/src/App.tsx: `sortedUniqueHosts`, `hostLabel` and `toggleHost`.
pub mod Laws
use logthing.Prelude.{
  ℕ, String, Bool, true, false, not, ◌&&◌, Option, none, some, List, [], ◌∷◌, ◌++◌, ◌==◌, any, keep,
  length, map, if◌then◌else◌,
}
use logthing.Prelude.Text.{concat, decimal}
use logthing.Prelude.Sorting.{sort}
use logthing.Frontend.Api.{trim_js}

-- `Array.prototype.includes`
abbrev pub includes : List String → String → Bool
includes hosts host = any (λ h. h == host) hosts

-- `Array.from(new Set(hosts))`: the first of equal values stays.
pub distinct : List String → List String
distinct [] = []
distinct (host ∷ hosts) = host ∷ keep (λ h. not (h == host)) (distinct hosts)

-- The order of `localeCompare`: `before_eq a b` is `a.localeCompare(b) <= 0`.
module _ (before_eq : String → String → Bool) where
  pub sorted_unique_hosts : List String → List String
  unfolding distinct
  sorted_unique_hosts hosts =
      sort before_eq (distinct (keep (λ h. not (h == "")) (map trim_js hosts)))

  -- The new selection of `toggleHost`.
  pub toggle_selection : String → List String → List String
  toggle_selection host current =
      if includes current host
      then keep (λ value. not (value == host)) current
      else sorted_unique_hosts (current ++ host ∷ [])

abbrev pub host_label : List String → String
host_label [] = "All hosts"
host_label (host ∷ []) = host
host_label (a ∷ b ∷ hosts) = concat (decimal (length (a ∷ b ∷ hosts)) ∷ " hosts" ∷ [])
