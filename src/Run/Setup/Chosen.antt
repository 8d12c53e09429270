-- ===== src/Run/Setup/Chosen.antt =====
-- The loop of `FindActiveContinuation` over the stored continuations, for any test on them.
use agent_infra_system.Base.{
  Bool, true, false, ◌≡◌, ◌∙◌, ap, sym, inl, inr, Option, none, some, [], ◌∷◌, arith, Bool-cases,
  All, ◌≢◌, ◌⊎◌, if◌then◌else◌,
}
use agent_infra_system.Base.Dict.{Dict}
use agent_infra_system.Run.Types.{Continuation}
use agent_infra_system.Run.Setup.{is_newer, choose, choose_from}

-- Of two entries, the one that stays is no older than either.
is_newer_trans :
    (d x c : Continuation) → is_newer d x ≡ true → is_newer d c ≡ false → is_newer x c ≡ false
unfolding is_newer
is_newer_trans d x c h k = ground arith

is_newer_negated_trans :
    (d x c : Continuation) → is_newer d x ≡ false → is_newer x c ≡ false → is_newer d c ≡ false
unfolding is_newer
is_newer_negated_trans d x c h k = ground arith

is_newer_irrefl : (c : Continuation) → is_newer c c ≡ false
unfolding is_newer
is_newer_irrefl c = ground arith

abbrev NotNewer : Option Continuation → Continuation → Type 0
NotNewer none c = Unit
NotNewer (some x) c = is_newer x c ≡ false

choose-NotNewer :
    (d c : Continuation) (o : Option Continuation)
    → is_newer (choose d o) c ≡ false
    → (is_newer d c ≡ false) × NotNewer o c
unfolding choose
choose-NotNewer d c none h = (h, tt)
choose-NotNewer d c (some x) h = elim (Bool-cases (is_newer d x)) [
  | inl newer ↦
      let kept : is_newer d c ≡ false = ground arith in (kept, is_newer_trans d x c newer kept)
  | inr older ↦
      let kept : is_newer x c ≡ false = ground arith in
      (is_newer_negated_trans d x c older kept, kept)
]

pub choose_from-NotNewer :
    (p : Continuation → Bool) (o : Option Continuation) (m : Dict Continuation) (c : Continuation)
    → choose_from p o m ≡ some c
    → NotNewer o c × All (λ e. p e.1 ≡ true → is_newer e.1 c ≡ false) m
unfolding choose_from
choose_from-NotNewer p none [] c e = (tt, tt)
choose_from-NotNewer p (some x) [] c e =
    let same : x ≡ c = ground arith in (ap (λ y. is_newer y c) same ∙ is_newer_irrefl c, tt)
choose_from-NotNewer p o ((token, d) ∷ rest) c e = elim (Bool-cases (p d)) [
  | inl candidate ↦
      let step : choose_from p (some (choose d o)) rest ≡ some c = ground arith in
      let (head, tail) = choose_from-NotNewer p (some (choose d o)) rest c step in
      let (new, old) = choose-NotNewer d c o head in (old, (λ h. new, tail))
  | inr skipped ↦
      let step : choose_from p o rest ≡ some c = ground arith in
      let (old, tail) = choose_from-NotNewer p o rest c step in (old, (λ h. cc h, tail))
]

abbrev Passes : (Continuation → Bool) → Option Continuation → Type 0
Passes p none = Unit
Passes p (some x) = p x ≡ true

choose-Passes :
    (p : Continuation → Bool) (d : Continuation) (o : Option Continuation)
    → p d ≡ true
    → Passes p o
    → p (choose d o) ≡ true
unfolding choose
choose-Passes p d none h k = h
choose-Passes p d (some x) h k = elim (Bool-cases (is_newer d x)) [
  | inl newer ↦ rw newer h
  | inr older ↦ rw older k
]

pub choose_from-Passes :
    (p : Continuation → Bool) (o : Option Continuation) (m : Dict Continuation) (c : Continuation)
    → Passes p o
    → choose_from p o m ≡ some c
    → p c ≡ true
unfolding choose_from
choose_from-Passes p none [] c k e = absurd (ground arith)
choose_from-Passes p (some x) [] c k e = let same : x ≡ c = ground arith in ap p (sym same) ∙ k
choose_from-Passes p o ((token, d) ∷ rest) c k e = elim (Bool-cases (p d)) [
  | inl candidate ↦
      choose_from-Passes p (some (choose d o)) rest c (choose-Passes p d o candidate k)
        (ground arith)
  | inr skipped ↦ choose_from-Passes p o rest c k (ground arith)
]

choose_from-some :
    (p : Continuation → Bool) (x : Continuation) (m : Dict Continuation)
    → choose_from p (some x) m ≢ none
unfolding choose_from
choose_from-some p x [] e = absurd (ground arith)
choose_from-some p x ((token, d) ∷ rest) e = elim (Bool-cases (p d)) [
  | inl candidate ↦ choose_from-some p (choose d (some x)) rest (ground arith)
  | inr skipped ↦ choose_from-some p x rest (ground arith)
]

pub choose_from-none :
    (p : Continuation → Bool) (o : Option Continuation) (m : Dict Continuation)
    → choose_from p o m ≡ none
    → All (λ e. p e.1 ≡ false) m
unfolding choose_from
choose_from-none p o [] e = tt
choose_from-none p o ((token, d) ∷ rest) e = elim (Bool-cases (p d)) [
  | inl candidate ↦ absurd (choose_from-some p (choose d o) rest (ground arith))
  | inr skipped ↦ (skipped, choose_from-none p o rest (ground arith))
]

-- A continuation stands among the stored ones.
abbrev pub IsStored : Continuation → Dict Continuation → Type 0
IsStored c [] = ⊥
IsStored c ((token, d) ∷ m) = (d ≡ c) ⊎ IsStored c m

pub choose_from-IsStored :
    (p : Continuation → Bool) (o : Option Continuation) (m : Dict Continuation) (c : Continuation)
    → choose_from p o m ≡ some c
    → (o ≡ some c) ⊎ IsStored c m
unfolding choose_from choose
choose_from-IsStored p o [] c e = inl e
choose_from-IsStored p none ((token, d) ∷ rest) c e =
    elim (choose_from-IsStored p (if p d then some d else none) rest c e) [
      | inl kept ↦ inr (inl (ground arith))
      | inr later ↦ inr (inr later)
    ]
choose_from-IsStored p (some x) ((token, d) ∷ rest) c e =
    elim (choose_from-IsStored p (if p d then some (choose d (some x)) else some x) rest c e) [
      | inl kept ↦ ground arith
      | inr later ↦ inr (inr later)
    ]
