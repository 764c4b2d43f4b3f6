-- ===== src/Kernel/Path.antt =====
-- `split_path` of kernel/koru_ops.rs: the parent of a path and its last component. Bytes are
-- numbers, and a path comes with the NUL that ends it.
pub mod Joined
use koru.Prelude.{
  ℕ, ℕ-cases, ==_ne, zero, suc, ◌≡◌, ◌≢◌, refl, ap, sym, ◌⊎◌, inl, inr, Bool, true, false, ◌&&◌,
  Option, none, some, List, [], ◌∷◌, ◌++◌, arith, length, ◌+◌, take, drop, All, ◌==◌, if◌then◌else◌,
  Bool-cases, Option-cases, subst,
}
use koru.Prelude.Partial.{some_inj}
use koru.Kernel.Abi.{Result, ok, err, einval, enomem}

abbrev pub slash : ℕ
slash = 47

abbrev pub dot : ℕ
dot = 46

abbrev pub later : Bool → Option ℕ → Option ℕ
later here none = if here then some 0 else none
later here (some i) = some (suc i)

-- `rposition`: the last slash.
unfoldable pub last_slash : List ℕ → Option ℕ
last_slash [] = none
last_slash (b ∷ bs) = later (b == slash) (last_slash bs)

-- Empty, `.` and `..` name no last component.
abbrev pub abnormal : List ℕ → Bool
abnormal [] = true
abnormal (a ∷ []) = a == dot
abnormal (a ∷ b ∷ []) = a == dot && b == dot
abnormal _ = false

unfoldable pub halves : List ℕ → Option ℕ → List ℕ × List ℕ
halves bytes none = (dot ∷ [], bytes)
halves bytes (some zero) = (slash ∷ [], drop 1 bytes)
halves bytes (some (suc i)) = (take (suc i) bytes, drop (suc (suc i)) bytes)

-- The last component is looked at, then room for the parent and its NUL is asked of `memory`.
unfoldable pub checked : (ℕ → Bool) → List ℕ × List ℕ → Result (List ℕ × List ℕ)
checked memory (dir, last) =
    if abnormal last
    then err einval
    else (if memory (length dir + 1) then ok (dir ++ 0 ∷ [], last) else err enomem)

-- All but the last byte, which is the NUL: every path that is split was ended by one.
unfoldable pub without_nul : List ℕ → List ℕ
without_nul [] = []
without_nul (b ∷ []) = []
without_nul (b ∷ c ∷ bs) = b ∷ without_nul (c ∷ bs)

unfoldable pub split_path : (ℕ → Bool) → List ℕ → Result (List ℕ × List ℕ)
unfolding last_slash halves checked without_nul
split_path memory path =
    let bytes = without_nul path in checked memory (halves bytes (last_slash bytes))

-- How a path reads off its halves: a bare name, a name in the root, or a name under a directory.
abbrev pub Joins : List ℕ → List ℕ → List ℕ → Type 0
Joins bytes dir last =
    ((bytes ≡ last) × (dir ≡ dot ∷ []))
    ⊎ (((bytes ≡ slash ∷ last) × (dir ≡ slash ∷ [])) ⊎ ((bytes ≡ dir ++ slash ∷ last) × (dir ≢ [])))

no_slash : (bytes : List ℕ) → last_slash bytes ≡ none → All (λ b. b ≢ slash) bytes
unfolding last_slash
no_slash [] h = tt
no_slash (b ∷ bs) h = elim (Option-cases (last_slash bs)) [
  | inl e ↦ (λ same. ground (arith, h, e, same), no_slash bs e)
  | inr (i, e) ↦ absurd (cc (rw e at h))
]

-- The last slash has one before it and none after.
slash_at :
    (bytes : List ℕ) (i : ℕ)
    → last_slash bytes ≡ some i
    → (bytes ≡ take i bytes ++ slash ∷ drop (suc i) bytes)
      × All (λ b. b ≢ slash) (drop (suc i) bytes)
unfolding last_slash
slash_at [] i h = absurd (cc h)
slash_at (b ∷ bs) i h = elim (Option-cases (last_slash bs)) [
  | inl e ↦
      let only = rw e at h in
      let front : 0 ≡ i = ground (arith, only) in
      let here : b ≡ slash = ground (arith, only) in rw (← front, here) (refl, no_slash bs e)
  | inr (j, e) ↦
      let step : suc j ≡ i = some_inj (rw e at h) in
      let (whole, none_after) = slash_at bs j e in
      rw (← step) (ap (λ (l : List ℕ). b ∷ l) whole, none_after)
]

ok_inj {ℓ} : {A : Type ℓ} {a b : A} → ok a ≡ ok b → a ≡ b
ok_inj h = cc h

take_ne : (bytes : List ℕ) (i : ℕ) → last_slash bytes ≡ some i → take i bytes ≡ [] → i ≡ 0
unfolding last_slash
take_ne [] i e h = absurd (cc e)
take_ne (b ∷ bs) zero e h = refl
take_ne (b ∷ bs) (suc i) e h = absurd (cc h)

Split : List ℕ → List ℕ × List ℕ → Type 0
Split bytes (dir, last) = Joins bytes dir last × All (λ b. b ≢ slash) last

Split-halves : (bytes : List ℕ) (o : Option ℕ) → last_slash bytes ≡ o → Split bytes (halves bytes o)
unfolding halves Split
Split-halves bytes none e = (inl (refl, refl), no_slash bytes e)
Split-halves bytes (some zero) e =
    let (whole, after) = slash_at bytes 0 e in (inr (inl (whole, refl)), after)
Split-halves bytes (some (suc i)) e =
    let (whole, after) = slash_at bytes (suc i) e in
    (inr (inr (whole, λ q. omega (arith, take_ne bytes (suc i) e q))), after)

pub without_nul-append : (bytes : List ℕ) → without_nul (bytes ++ 0 ∷ []) ≡ bytes
unfolding without_nul
without_nul-append [] = refl
without_nul-append (b ∷ []) = refl
without_nul-append (b ∷ c ∷ bs) = ap (λ (l : List ℕ). b ∷ l) (without_nul-append (c ∷ bs))

-- What is accepted has a last component, and the parent is one of the halves.
checked_ok :
    (memory : ℕ → Bool) (dir last parent name : List ℕ)
    → checked memory (dir, last) ≡ ok (parent, name)
    → (abnormal last ≡ false) × (parent ≡ dir ++ 0 ∷ []) × (last ≡ name)
unfolding checked
checked_ok memory dir last parent name h = elim (Bool-cases (abnormal last)) [
  | inl bad ↦ absurd (cc (rw bad at h))
  | inr good ↦ elim (Bool-cases (memory (length dir + 1))) [
    | inl room ↦
        let same = ok_inj (rw (good, room) at h) in
        (good, sym (ap (λ (p : List ℕ × List ℕ). p.0) same), ap (λ (p : List ℕ × List ℕ). p.1) same)
    | inr full ↦ absurd (cc (rw (good, full) at h))
  ]
]

-- Names that are refused, and the others.
abbrev pub Dots : List ℕ → Type 0
Dots last = (last ≡ []) ⊎ ((last ≡ dot ∷ []) ⊎ (last ≡ dot ∷ dot ∷ []))

abbrev pub Named : List ℕ → Type 0
Named last = (last ≢ []) × (last ≢ dot ∷ []) × (last ≢ dot ∷ dot ∷ [])

second : List ℕ → ℕ
second (a ∷ b ∷ bs) = b
second _ = 0

first : List ℕ → ℕ
first (a ∷ bs) = a
first [] = 0

pub abnormal-cases :
    (last : List ℕ) → ((abnormal last ≡ true) × Dots last) ⊎ ((abnormal last ≡ false) × Named last)
unfolding first second
abnormal-cases [] = inl (refl, inl refl)
abnormal-cases (a ∷ []) = elim (ℕ-cases a dot) [
  | inl same ↦ inl (rw same (refl, inr (inl refl)))
  | inr ne ↦ inr (==_ne a dot ne, ((λ e. cc e), (λ e. ne (ap first e)), (λ e. cc e)))
]
abnormal-cases (a ∷ b ∷ []) = elim (ℕ-cases a dot) [
  | inl same ↦ elim (ℕ-cases b dot) [
    | inl same' ↦ inl (rw (same, same') (refl, inr (inr refl)))
    | inr ne ↦
        inr (rw (==_ne b dot ne, same) refl, ((λ e. cc e), (λ e. cc e), (λ e. ne (ap second e))))
  ]
  | inr ne ↦ inr (rw (==_ne a dot ne) refl, ((λ e. cc e), (λ e. cc e), (λ e. ne (ap first e))))
]
abnormal-cases (a ∷ b ∷ c ∷ bs) = inr (refl, ((λ e. cc e), (λ e. cc e), (λ e. cc e)))

Named-normal : (last : List ℕ) → abnormal last ≡ false → Named last
Named-normal last h = elim (abnormal-cases last) [
  | inl (bad, _) ↦ absurd (cc (bad, h))
  | inr (_, named) ↦ named
]

-- A path, ended by its NUL, that `split_path` accepts is the parent and the last component that it
-- returns, the parent ended by a NUL. The last component has no slash and is neither empty nor `.`
-- nor `..`. A bare name has `.` for parent, a name in the root has `/`, and any other parent is what
-- stands before the last slash, which is not empty.
pub split_path_lem :
    (memory : ℕ → Bool) (bytes parent last : List ℕ)
    → split_path memory (bytes ++ 0 ∷ []) ≡ ok (parent, last)
    → (dir : List ℕ) × (parent ≡ dir ++ 0 ∷ [])
      × Joins bytes dir last
      × All (λ b. b ≢ slash) last
      × Named last
unfolding split_path Split
split_path_lem memory bytes parent last h =
    let (joined, plain) = Split-halves bytes (last_slash bytes) refl in
    let (dir, last') = halves bytes (last_slash bytes) in
    let (good, ended, same) =
      checked_ok memory dir last' parent last (rw (without_nul-append bytes) at h) in
    let (joined', plain', good') =
      subst (λ (l : List ℕ). Joins bytes dir l × All (λ b. b ≢ slash) l × (abnormal l ≡ false)) same
        (joined, plain, good) in
    (dir, ended, joined', plain', Named-normal last good')
