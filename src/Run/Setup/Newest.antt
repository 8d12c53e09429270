-- ===== src/Run/Setup/Newest.antt =====
-- `FindActiveContinuation` answers a newest candidate.
use agent_infra_system.Base.{
  String, true, false, ◌≡◌, sym, inl, inr, Option, none, some, [], ◌∷◌, arith, All, ◌≢◌, ◌↔◌, ◌⊎◌,
  subst, ◌≤◌, eq_iff, ◌==◌, if_induction, Option-cases, List,
}
use agent_infra_system.Base.Dict.{Dict}
use agent_infra_system.Base.Text.{trim_space, to_lower}
use agent_infra_system.Base.Time.{Time}
use agent_infra_system.Base.Int.{leb_ℤ}
use agent_infra_system.Run.States.{ContinuationStatus, show_token_type}
use agent_infra_system.Run.Types.{Kernel, Continuation}
use agent_infra_system.Run.Setup.{
  is_candidate, is_active, is_newer, choose_from, find_active_continuation,
}
use agent_infra_system.Run.Setup.Chosen.{
  choose_from-NotNewer, choose_from-Passes, choose_from-none, IsStored, choose_from-IsStored,
}

-- What the search asks of a continuation.
pub record Fits (run_id step_id token_type : String) (now : Time) (c : Continuation) : Type 0 where
  pub of_the_run : c.run_id ≡ trim_space run_id
  pub of_the_step : (trim_space step_id ≡ "") ⊎ (c.step_id ≡ trim_space step_id)
  pub of_the_type :
      (to_lower (trim_space token_type) ≡ "")
      ⊎ (show_token_type c.token_type ≡ to_lower (trim_space token_type))
  pub still_active : c.status ≡ ContinuationStatus.active
  pub in_time : now ≤ c.expires_at

is_candidate-Fits :
    (run_id step_id token_type : String) (now : Time) (c : Continuation)
    → (is_candidate
          (trim_space run_id)
          (trim_space step_id)
          (to_lower (trim_space token_type))
          now
          c
        ≡ true)
      ↔ Fits run_id step_id token_type now c
unfolding is_candidate is_active
is_candidate-Fits run_id step_id token_type now c = (
  λ h. record {
    of_the_run = ground (arith, eq_iff c.run_id (trim_space run_id));
    of_the_step =
        ground (arith, eq_iff (trim_space step_id) "", eq_iff c.step_id (trim_space step_id));
    of_the_type = ground (
      arith,
      eq_iff (to_lower (trim_space token_type)) "",
      eq_iff (show_token_type c.token_type) (to_lower (trim_space token_type)),
    );
    still_active = ground arith;
    in_time = ground arith;
  },
  λ f.
      let a = f.of_the_run in
      let b = f.of_the_step in
      let d = f.of_the_type in
      let e = f.still_active in
      let g = f.in_time in
      ground (
        arith,
        eq_iff c.run_id (trim_space run_id),
        eq_iff (trim_space step_id) "",
        eq_iff c.step_id (trim_space step_id),
        eq_iff (to_lower (trim_space token_type)) "",
        eq_iff (show_token_type c.token_type) (to_lower (trim_space token_type)),
      ),
)

-- `c` is not before `d`: its sequence number is higher, or the same, and then it was not made earlier.
pub record IsNotBefore (c d : Continuation) : Type 0 where
  pub seq_le : leb_ℤ d.step_seq_id c.step_seq_id ≡ true
  pub made_le : d.step_seq_id ≡ c.step_seq_id → d.created_at ≤ c.created_at

not_newer-IsNotBefore : (c d : Continuation) → is_newer d c ≡ false → IsNotBefore c d
unfolding is_newer
not_newer-IsNotBefore c d h = record { seq_le = ground arith; made_le = λ same. ground arith }

-- What the search may answer for the stored continuations.
abbrev pub Answers : (Continuation → Type 0) → Dict Continuation → Option Continuation → Type 0
Answers P m none = All (λ e. ¬ P e.1) m
Answers P m (some c) = IsStored c m × P c × All (λ e. P e.1 → IsNotBefore c e.1) m

All-map {ℓ κ μ} :
    {A : Type ℓ} {P : A → Type κ} {Q : A → Type μ} (f : (a : A) → P a → Q a) (l : List A)
    → All P l
    → All Q l
All-map f [] h = tt
All-map f (x ∷ l) h = (f x h.0, All-map f l h.1)

-- For a run id that is not blank, the search answers a stored continuation that is active and in time
-- for the run, and for the step and the type where these are given, and none that is so has a higher
-- sequence number, or the same one and was made later; it answers nothing only where none is so.
pub find_active_continuation_newest :
    (run_id step_id token_type : String) (now : Time) (k : Kernel)
    → trim_space run_id ≢ ""
    → Answers
        (Fits run_id step_id token_type now)
        k.continuations
        (find_active_continuation run_id step_id token_type now k)
unfolding find_active_continuation
find_active_continuation_newest run_id step_id token_type now k given =
    let p =
      is_candidate (trim_space run_id) (trim_space step_id) (to_lower (trim_space token_type))
        now in
    let of_candidates = is_candidate-Fits run_id step_id token_type now in
    let answer = choose_from p none k.continuations in
    let P = Answers (Fits run_id step_id token_type now) k.continuations in
    let searched : P answer = elim (Option-cases answer) [
      | inl nothing ↦ subst P (sym nothing) (
          All-map (λ e skipped f. let yes = (of_candidates e.1).1 f in absurd (ground arith))
            k.continuations (choose_from-none p none k.continuations nothing))
      | inr (c, chosen) ↦
          let (_, others) = choose_from-NotNewer p none k.continuations c chosen in
          let stored : IsStored c k.continuations =
            elim (choose_from-IsStored p none k.continuations c chosen) [
              | inl e ↦ absurd (ground arith)
              | inr s ↦ s
            ] in
          subst P (sym chosen) (
            stored,
            (of_candidates c).0 (choose_from-Passes p none k.continuations c tt chosen),
            All-map (λ e newest f. not_newer-IsNotBefore c e.1 (newest ((of_candidates e.1).1 f)))
                k.continuations others,
          )
    ] in
    if_induction P (trim_space run_id == "")
      (λ blank. absurd (given ((eq_iff (trim_space run_id) "").0 blank))) (λ named. searched)
