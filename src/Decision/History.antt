-- ===== src/Decision/History.antt =====
-- The stored decisions of internal/decision/service.go and their histories. How Go encodes a decoded
-- JSON object again (`marshalJSON` in `canonicalizeForDecisionSemantic`) is a parameter.
pub mod Current
use agent_infra_system.Base.{
  ℕ, ◌-◌, String, Bool, not, ◌&&◌, ◌||◌, Option, none, some, List, [], ◌∷◌, ◌++◌, ◌==◌, length,
  drop, is_empty, if◌then◌else◌, leb,
}
use agent_infra_system.Base.Int.{ℤ, pos, pos_part, leb_ℤ, eq_ℤ, int64_succ}
use agent_infra_system.Base.Dict.{Dict, lookup, insert, erase}
use agent_infra_system.Decision.Types.{Service, StoredDecision, Field}

-- `capDecisionHistory`: a positive limit keeps the last entries.
unfoldable pub cap_decision_history : ℤ → List StoredDecision → List StoredDecision
cap_decision_history limit history =
    if leb_ℤ limit (pos 0) || leb_ℤ (pos (length history)) limit
    then history
    else drop (length history - pos_part limit) history

-- `history[len(history)-1] = next`, and the history of one entry where there is none
unfoldable pub replace_last : StoredDecision → List StoredDecision → List StoredDecision
replace_last next [] = next ∷ []
replace_last next (d ∷ []) = next ∷ []
replace_last next (d ∷ e ∷ rest) = d ∷ replace_last next (e ∷ rest)

unfoldable pub put_decision : String → StoredDecision → List StoredDecision → Service → Service
put_decision id d history s = record s {
  decisions = insert id d s.decisions;
  decision_history =
      insert id (cap_decision_history s.cfg.decision_max_history_versions history)
        s.decision_history;
}

-- `s.decisionHistory[id]`, which is empty where the key is missing
unfoldable pub history_of : String → Service → List StoredDecision
history_of id s = elim (lookup id s.decision_history) [ none ↦ [] | some h ↦ h ]

module _ (marshal_fields : Dict Field → Option String) where
  -- The text of an object without its hashes.
  unfoldable pub canonicalize_for_decision_semantic : Dict Field → String
  canonicalize_for_decision_semantic m =
      let rest =
        erase "decision_hash" (erase "decision_hash_is_fallback" (erase "decision_hash_ref" m)) in
      if is_empty m then "{}" else elim (marshal_fields rest) [ none ↦ "{}" | some raw ↦ raw ]

  unfoldable pub is_same_decision : StoredDecision → StoredDecision → Bool
  is_same_decision existing next =
      existing.decision_type == next.decision_type
      && existing.decision_key == next.decision_key
      && canonicalize_for_decision_semantic existing.request
        == canonicalize_for_decision_semantic next.request
      && canonicalize_for_decision_semantic existing.response
        == canonicalize_for_decision_semantic next.response

  -- From the lookup of the existing decision on; `next` is the new one, its version still to be set.
  unfoldable pub record_decision_locked : String → StoredDecision → Service → Service
  record_decision_locked id next s = elim (lookup id s.decisions) [
    | none ↦ let first = record next { version = pos 1 } in put_decision id first (first ∷ []) s
    | some existing ↦
        let again = record next { version = existing.version } in
        let newer = record next { version = int64_succ existing.version } in
        let history = history_of id s in
        let base = if is_empty history then existing ∷ [] else history in
        if is_same_decision existing next
        then put_decision id again (replace_last again history) s
        else put_decision id newer (base ++ newer ∷ []) s
  ]

unfoldable pub get_decision : String → Service → Option StoredDecision
get_decision id s = lookup id s.decisions

unfoldable pub get_decision_history : String → Service → Option (List StoredDecision)
get_decision_history id s = elim (lookup id s.decision_history) [
  | none ↦ none
  | some h ↦ if is_empty h then none else some h
]

unfoldable pub get_decision_version : String → Service → Option ℤ
get_decision_version id s = elim (lookup id s.decisions) [ none ↦ none | some d ↦ some d.version ]

unfoldable pub find_version : ℤ → List StoredDecision → Option StoredDecision
find_version version [] = none
find_version version (d ∷ rest) =
    let later = find_version version rest in if eq_ℤ d.version version then some d else later

unfoldable pub get_decision_by_version : String → ℤ → Service → Option StoredDecision
get_decision_by_version id version s = find_version version (history_of id s)
