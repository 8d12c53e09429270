-- ===== src/Run/Obligations/Templates.antt =====
-- The template evidence in an execution receipt reference: `extractTemplateEvidenceIDs` and its
-- helpers of internal/run/kernel.go. The set of candidates is a list.
use Prim.Native.String.{compare}
use Prim.Native.Nat.{Ordering}
use mathlib.Core.List.{◌++◌ as append, flatten}
use agent_infra_system.Base.{
  String, Bool, true, false, ◌||◌, none, some, List, [], ◌∷◌, map, if◌then◌else◌, ◌==◌,
}
use agent_infra_system.Base.Text.{trim_space, trim_slashes, to_lower}
use agent_infra_system.Base.Split.{split_on, last_part}
use agent_infra_system.Platform.{Platform, Url}

-- The candidate that a text gives, if any: the last part of its path.
unfoldable pub template_evidence_candidate : String → List String
template_evidence_candidate v =
    let candidate = trim_space (last_part (split_on b'/' (trim_space (trim_slashes v)))) in
    if candidate == "" then [] else candidate ∷ []

is_template_segment : String → Bool
is_template_segment seg = let s = to_lower (trim_space seg) in s == "template" || s == "templates"

-- Each segment after one that says `template` or `templates`.
evidence_from_segments : List String → List String
unfolding is_template_segment template_evidence_candidate
evidence_from_segments [] = []
evidence_from_segments (seg ∷ []) = []
evidence_from_segments (seg ∷ next ∷ rest) =
    let more = evidence_from_segments (next ∷ rest) in
    if is_template_segment seg then append (template_evidence_candidate next) more else more

unfoldable pub template_evidence_from_path : String → List String
unfolding evidence_from_segments
template_evidence_from_path path = evidence_from_segments (split_on b'/' (trim_slashes path))

query_values : String → List (String × List String) → List String
query_values key [] = []
query_values key ((k, vs) ∷ q) = let rest = query_values key q in if k == key then vs else rest

unfoldable pub template_evidence_of_url : Url → List String
unfolding template_evidence_from_path query_values template_evidence_candidate
template_evidence_of_url u =
    append
      (if to_lower (trim_space u.scheme) == "template"
        then append (template_evidence_candidate u.host) (template_evidence_candidate u.path)
        else [])
      (append (template_evidence_from_path u.path) (
        flatten (
          map template_evidence_candidate (
            append (query_values "template" u.query)
              (append (query_values "template_id" u.query) (query_values "templateId" u.query))))))

unfoldable pub contains : List String → String → Bool
contains [] s = false
contains (x ∷ xs) s = x == s || contains xs s

-- Insertion into a sorted list without repetition.
place : String → List String → List String
place s [] = s ∷ []
place s (x ∷ xs) =
    let rest = place s xs in
    elim (compare s x) [ Ordering.lt ↦ s ∷ x ∷ xs | Ordering.eq ↦ x ∷ xs | Ordering.gt ↦ x ∷ rest ]

-- `sort.Strings` over the keys of a set or a map
unfoldable pub sort_strings : List String → List String
unfolding place
sort_strings [] = []
sort_strings (x ∷ xs) = place x (sort_strings xs)

module _ ⦃platform : Platform⦄ where
  unfoldable pub extract_template_evidence_ids : String → List String
  extract_template_evidence_ids receipt_ref =
      let ref = trim_space receipt_ref in
      if ref == ""
      then []
      else elim (platform.parse_url ref) [ none ↦ [] | some u ↦ template_evidence_of_url u ]

  unfoldable pub receipt_ref_has_template_evidence : String → String → Bool
  unfolding contains
  receipt_ref_has_template_evidence receipt_ref template_id =
      let id = trim_space template_id in
      if id == "" then true else contains (extract_template_evidence_ids receipt_ref) id

  unfoldable pub sorted_template_evidence_ids : String → List String
  unfolding sort_strings
  sorted_template_evidence_ids receipt_ref =
      sort_strings (extract_template_evidence_ids receipt_ref)
