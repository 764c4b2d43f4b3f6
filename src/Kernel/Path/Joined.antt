-- ===== src/Kernel/Path/Joined.antt =====
-- What `split_path` answers for every path that is a parent and a last component.
use koru.Prelude.{
  ℕ, suc, ◌+◌, ◌≡◌, ◌≢◌, refl, ap, ◌∙◌, inl, inr, ◌⊎◌, Bool, none, some, List, [], ◌∷◌, ◌++◌,
  length, take, drop, All, ◌==◌, if◌then◌else◌, ==_ne,
}
use koru.Kernel.Abi.{ok, err, einval, enomem}
use koru.Kernel.Path.{
  slash, later, last_slash, halves, checked, without_nul-append, split_path, Joins, Dots, Named,
  abnormal-cases,
}

last_slash-none : (bytes : List ℕ) → All (λ b. b ≢ slash) bytes → last_slash bytes ≡ none
unfolding last_slash
last_slash-none [] h = refl
last_slash-none (b ∷ bs) h = rw (last_slash-none bs h.1, ==_ne b slash h.0) refl

last_slash-join :
    (dir last : List ℕ)
    → All (λ b. b ≢ slash) last
    → last_slash (dir ++ slash ∷ last) ≡ some (length dir)
unfolding last_slash
last_slash-join [] last h = rw (last_slash-none last h) refl
last_slash-join (d ∷ ds) last h = ap (later (d == slash)) (last_slash-join ds last h)

take-join : (dir last : List ℕ) → take (length dir) (dir ++ slash ∷ last) ≡ dir
take-join [] last = refl
take-join (d ∷ ds) last = ap (λ (l : List ℕ). d ∷ l) (take-join ds last)

drop-join : (dir last : List ℕ) → drop (suc (length dir)) (dir ++ slash ∷ last) ≡ last
drop-join [] last = refl
drop-join (d ∷ ds) last = drop-join ds last

halves-Joins :
    (bytes dir last : List ℕ)
    → Joins bytes dir last
    → All (λ b. b ≢ slash) last
    → halves bytes (last_slash bytes) ≡ (dir, last)
unfolding halves
halves-Joins bytes dir last (inl (bare, here)) h = rw (bare, last_slash-none last h, here) refl
halves-Joins bytes dir last (inr (inl (rooted, root))) h =
    rw (rooted, last_slash-join [] last h, root) refl
halves-Joins bytes [] last (inr (inr (under, some_dir))) h = absurd (some_dir refl)
halves-Joins bytes (d ∷ ds) last (inr (inr (under, some_dir))) h =
    rw (under, last_slash-join (d ∷ ds) last h, take-join ds last, drop-join ds last) refl

-- For a last component without a slash, on its own with `.` for parent, in the root with `/`, or
-- after a slash and the parent, `split_path` of the path with its NUL answers, whatever the memory:
-- EINVAL where the last component is empty, `.` or `..`; otherwise ENOMEM where there is no room for
-- the parent and a NUL; otherwise the parent, ended by a NUL, and the last component.
pub split_path-Joins :
    (memory : ℕ → Bool) (bytes dir last : List ℕ)
    → Joins bytes dir last
    → All (λ b. b ≢ slash) last
    → (Dots last × (split_path memory (bytes ++ 0 ∷ []) ≡ err einval))
      ⊎ (Named last
          × (split_path memory (bytes ++ 0 ∷ [])
              ≡ (if memory (length dir + 1) then ok (dir ++ 0 ∷ [], last) else err enomem)))
unfolding split_path checked
split_path-Joins memory bytes dir last j h =
    let parts =
      ap (λ (b : List ℕ). checked memory (halves b (last_slash b))) (without_nul-append bytes)
      ∙ ap (checked memory) (halves-Joins bytes dir last j h) in
    elim (abnormal-cases last) [
      | inl (bad, dots) ↦ inl (dots, parts ∙ rw bad refl)
      | inr (good, named) ↦ inr (named, parts ∙ rw good refl)
    ]
