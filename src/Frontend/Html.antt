-- ===== src/Frontend/Html.antt =====
-- The elements that frontend/src/App.tsx returns: a tree with the attributes, and with what the
-- handlers of its controls call. A name that JSX and antt spell differently keeps its JSX text.
use logthing.Prelude.{
  ℕ, String, Bool, false, ◌||◌, Option, List, [], ◌∷◌, ◌++◌, ◌==◌, All, All-append, if◌then◌else◌,
}
use logthing.Prelude.Text.{decimal}
use logthing.Frontend.App.Step.{Action}

-- What a handler does: actions of the page's state, or the files that it reads and writes.
pub data Handler : Type 0 where
  calls : Action → Handler
  calls_with_text : (String → Action) → Handler
  calls_with_checked : (Bool → Action) → Handler
  shows_evidence : Option String → Handler
  exports_messages chooses_file imports_file : Handler

pub data Attribute : Type 0 where
  attr : String → String → Attribute
  flag : String → Bool → Attribute
  on : Handler → Attribute

-- Neighbours are joined by `beside`; a fragment, and what JSX leaves out, have no element.
pub data Html : Type 0 where
  nothing : Html
  text : String → Html
  element : String → List Attribute → Html → Html
  beside : Html → Html → Html

abbrev pub nodes : List Html → Html
nodes [] = nothing
nodes (h ∷ hs) = beside h (nodes hs)

abbrev pub el : String → List Attribute → List Html → Html
el tag attributes children = element tag attributes (nodes children)

abbrev pub class_name : String → Attribute
class_name = attr "className"

abbrev pub tag_text : String → String → Html
tag_text tag content = el tag [] (text content ∷ [])

abbrev pub box : String → String → Html
box class content = el "div" (class_name class ∷ []) (text content ∷ [])

-- An icon of lucide-react.
abbrev pub icon : String → ℕ → Html
icon name size = el name (attr "size" (decimal size) ∷ []) []

abbrev pub icon_with : String → ℕ → String → Html
icon_with name size class = el name (attr "size" (decimal size) ∷ class_name class ∷ []) []

-- `{list.map(...)}`
abbrev pub each {ℓ} : {A : Type ℓ} → (A → Html) → List A → Html
each f [] = nothing
each f (x ∷ xs) = beside (f x) (each f xs)

-- `{test && html}`
abbrev pub when : Bool → Html → Html
when test html = if test then html else nothing

-- An attribute `disabled` that is set.
abbrev is_disabled : List Attribute → Bool
is_disabled [] = false
is_disabled (flag name b ∷ rest) = (if name == "disabled" then b else false) || is_disabled rest
is_disabled (attr _ _ ∷ rest) = is_disabled rest
is_disabled (on _ ∷ rest) = is_disabled rest

abbrev handlers_of : List Attribute → List Handler
handlers_of [] = []
handlers_of (on h ∷ rest) = h ∷ handlers_of rest
handlers_of (attr _ _ ∷ rest) = handlers_of rest
handlers_of (flag _ _ ∷ rest) = handlers_of rest

-- The handlers that the user can set off: those of the controls that are not disabled.
abbrev pub enabled : Html → List Handler
enabled nothing = []
enabled (text _) = []
enabled (element tag attributes children) =
    (if is_disabled attributes then [] else handlers_of attributes) ++ enabled children
enabled (beside a b) = enabled a ++ enabled b

module _ {κ} (P : Handler → Type κ) where
  pub All-enabled-each {ℓ} :
      {A : Type ℓ} (f : A → Html) (xs : List A)
      → ((x : A) → All P (enabled (f x)))
      → All P (enabled (each f xs))
  All-enabled-each f [] h = tt
  All-enabled-each f (x ∷ xs) h =
      All-append P (enabled (f x)) (enabled (each f xs)) (h x) (All-enabled-each f xs h)
