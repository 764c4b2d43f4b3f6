-- ===== src/Runtime/Reactor/Drops.antt =====
-- Dropping the future of an operation that is in flight: the buffer stays with the kernel.
use koru.Prelude.{
  ℕ, ◌+◌, ◌<◌, ◌≡◌, ◌≢◌, refl, sym, ap, ◌∙◌, none, some, [], ◌∷◌, ◌++◌, arith, length, ==_ne,
}
use koru.Prelude.Words.{u32_mod, u64_mod}
use koru.Sys.Abi
use koru.Runtime.Cookie.{Cookie}
use koru.Runtime.Slab.{get, get_mut}
use koru.Runtime.Slab.Invariant.{IsValid}
use koru.Runtime.Slab.Update.{get_mut-IsValid, get-get_mut_self, length-get_mut}
use koru.Runtime.Slab.Laws.{insert_lem}
use koru.Runtime.Op.{Op, live, abandoned, on_abandon, probe, cancel}
use koru.Runtime.Reactor.{Inner, abandon, abandoning}

on_abandon_live :
    (o : Op ℕ)
    → o.state ≡ live
    → on_abandon o ≡ (record o { state = abandoned; waker = none }, cancel)
unfolding on_abandon
on_abandon_live o h = ground (arith, h)

-- On a sound slab with an index left, dropping the future of an operation in flight returns and
-- leaves the slab sound. The entry stays, abandoned and without a waker, and keeps its slot; the
-- pool is not touched; and a CANCEL for the cookie goes to the end of the pending SQEs, under the
-- cookie of a new probe.
pub abandon_live :
    (s : Inner) (c : Cookie) (o : Op ℕ)
    → IsValid s.slab
    → length s.slab.entries < u32_mod
    → c < u64_mod
    → get s.slab c ≡ some o
    → o.state ≡ live
    → (p : Cookie) × (t : Inner) × (abandon s c ≡ some t)
      × IsValid t.slab
      × (t.pool ≡ s.pool)
      × (t.pending ≡ s.pending ++ Abi.cancel p c ∷ [])
      × (get t.slab c ≡ some (record o { state = abandoned; waker = none }))
      × (get t.slab p ≡ some probe)
      × (p ≢ c)
unfolding abandon abandoning
abandon_live s c o w room h e k =
    let f : Op ℕ → Op ℕ = λ o'. (on_abandon o').0 in
    let there = get-get_mut_self f s.slab c o e in
    let (p, u, ins, sound, word, fresh, found, bound, _) =
      insert_lem (get_mut s.slab c f) probe c (get_mut-IsValid f s.slab c w)
        (λ _. omega (arith, length-get_mut f s.slab c, room)) h in
    let apart : c ≢ p = λ same. absurd (cc (there, fresh, same)) in
    (
      p,
      record s {
        slab = u;
        pending = s.pending ++ Abi.cancel p c ∷ [];
        counters = record s.counters { cancels_submitted = s.counters.cancels_submitted + 1 };
      },
      rw (e, abandon, on_abandon_live o k, ins),
      sound,
      refl,
      refl,
      rw (==_ne c p apart) at bound ∙ there ∙ ap (λ (q : Op ℕ × _). some q.0) (on_abandon_live o k),
      found,
      λ same. apart (sym same),
    )
