-- ===== src/Runtime/Exec/Tasks.antt =====
-- What one poll does to the task slab, and what `spawn` puts into it.
use koru.Prelude.{
  ◌<◌, ◌≡◌, refl, ap, sym, ◌∙◌, inl, inr, Bool, true, false, Option, none, some, arith, length,
  ℕ-cases, ◌==◌, ==_refl, ==_ne, if◌then◌else◌, Distinct,
}
use koru.Prelude.Partial.{◌>>=◌}
use koru.Prelude.Words.{u32_mod, u64_mod}
use koru.Runtime.Cookie.{Cookie}
use koru.Runtime.Slab.{get, get_mut}
use koru.Runtime.Slab.Invariant.{IsValid}
use koru.Runtime.Slab.Laws.{insert_lem, get_mut_lem}
use koru.Runtime.Slab.Remove.{get-remove, remove-IsValid}
use koru.Runtime.Slab.Update.{get_mut_miss}
use koru.Runtime.Reactor.{wake, contains}
use koru.Runtime.Exec.{
  Task, Runtime, Poll, hollow, put_back, polled, poll_task, both, taken, mark_ready, spawn,
}
use koru.Runtime.Exec.Ready.{wake_lem}

module _ {F : Type 0} where
  put_back_lem :
      (id d : Cookie) (done : Bool) (fut : F) (u : Runtime F)
      → IsValid u.tasks
      → id < u64_mod
      → d < u64_mod
      → IsValid (put_back id (done, fut, u)).tasks
        × (get (put_back id (done, fut, u)).tasks d ≡ (
            if id == d
            then (if done
                then none
                else get u.tasks d >>= (λ t'. some (record t' { fut = some fut })))
            else get u.tasks d))
  unfolding put_back
  put_back_lem id d true fut u w h k = (remove-IsValid u.tasks id w, get-remove u.tasks id d h k)
  put_back_lem id d false fut u w h k =
      get_mut_lem (λ t'. record t' { fut = some fut }) u.tasks id d w h k

  poll_task_hit :
      (poll : Poll F) (s : Runtime F) (id : Cookie) (fut : F) (waker : Cookie)
      → get s.tasks id ≡ some (record { fut = some fut; waker = some waker })
      → poll_task poll s id ≡ put_back id (poll fut waker (hollow s id))
  unfolding poll_task polled taken both
  poll_task_hit poll s id fut waker e = rw (e, poll_task) refl

  hollow_lem :
      (s : Runtime F) (id d : Cookie) (t : Task F)
      → get s.tasks id ≡ some t
      → IsValid s.tasks
      → id < u64_mod
      → d < u64_mod
      → get (hollow s id).tasks d
        ≡ (if id == d then some (record t { fut = none }) else get s.tasks d)
  unfolding hollow
  hollow_lem s id d t e w h k =
      let (_, at) = get_mut_lem (λ t'. record t' { fut = none }) s.tasks id d w h k in
      at ∙ elim (ℕ-cases id d) [
        | inl same ↦ rw (← same, ==_refl id, e) refl
        | inr ne ↦ rw (==_ne id d ne) refl
      ]

  -- A task of a sound slab that has a future is polled once, with its own waker, from a state in
  -- which its future is moved out and every other task and the shared state are as they were. Where
  -- the poll leaves a sound slab it stays sound; if the poll is ready the task is gone, otherwise
  -- the future goes back, unless the task went away meanwhile; and every other task is as the poll
  -- left it.
  pub poll_task_lem :
      (poll : Poll F) (s u : Runtime F) (id d : Cookie) (fut fut' : F) (waker : Cookie)
      (done : Bool)
      → IsValid s.tasks
      → get s.tasks id ≡ some (record { fut = some fut; waker = some waker })
      → poll fut waker (hollow s id) ≡ (done, fut', u)
      → IsValid u.tasks
      → id < u64_mod
      → d < u64_mod
      → (get (hollow s id).tasks d
          ≡ (if id == d then some (record { fut = none; waker = some waker }) else get s.tasks d))
        × ((hollow s id).inner ≡ s.inner)
        × IsValid (poll_task poll s id).tasks
        × (get (poll_task poll s id).tasks d ≡ (
            if id == d
            then (if done
                then none
                else get u.tasks d >>= (λ t'. some (record t' { fut = some fut' })))
            else get u.tasks d))
  unfolding hollow
  poll_task_lem poll s u id d fut fut' waker done v e p w h k =
      let out = hollow_lem s id d (record { fut = some fut; waker = some waker }) e v h k in
      let (sound, at) = put_back_lem id d done fut' u w h k in
      let run = poll_task_hit poll s id fut waker e ∙ ap (put_back id) p in
      (out, refl, rw run sound, rw run at)

  -- A wake that comes after its task is gone polls nothing and changes nothing.
  pub poll_task_stale :
      (poll : Poll F) (s : Runtime F) (id : Cookie)
      → get s.tasks id ≡ none
      → poll_task poll s id ≡ s
  unfolding poll_task polled taken hollow
  poll_task_stale poll s id e =
      rw (e, poll_task, get_mut_miss (λ t. record t { fut = none }) s.tasks id e) refl

  merged :
      (f : Task F → Task F) (id d : Cookie) (x y z : Option (Task F)) (new : Task F)
      → x ≡ (if id == d then y >>= (λ v. some (f v)) else y)
      → y ≡ (if d == id then some new else z)
      → x ≡ (if d == id then some (f new) else z)
  merged f id d x y z new a b = elim (ℕ-cases d id) [
    | inl same ↦
        let a' = rw (same, ==_refl id) at a in
        let b' = rw (same, ==_refl id) at b in
        rw (same, ==_refl id) (a' ∙ ap (λ (o : Option (Task F)). o >>= λ v. some (f v)) b')
    | inr ne ↦
        let a' = rw (==_ne id d (λ e. ne (sym e))) at a in
        let b' = rw (==_ne d id ne) at b in rw (==_ne d id ne) (a' ∙ b')
  ]

  -- On a sound slab with an index left, and a ready queue without repetitions, `spawn` returns. It
  -- puts the future into the slab under a cookie that was free, with a waker for that very cookie,
  -- and queues it; every other task is as before, and slab and queue stay sound.
  pub spawn_lem :
      (s : Runtime F) (fut : F) (d : Cookie)
      → IsValid s.tasks
      → length s.tasks.entries < u32_mod
      → Distinct s.inner.ready_queue
      → d < u64_mod
      → (id : Cookie) × (u : Runtime F) × (spawn s fut ≡ some (id, u))
        × IsValid u.tasks
        × (get s.tasks id ≡ none)
        × (get u.tasks d ≡ (
            if d == id then some (record { fut = some fut; waker = some id }) else get s.tasks d))
        × (contains u.inner.ready_queue id ≡ true)
        × Distinct u.inner.ready_queue
  unfolding spawn mark_ready
  spawn_lem s fut d w room once h =
      let new : Task F = record { fut = some fut; waker = none } in
      let (id, t, run, sound, word, free, found, other, _) =
        insert_lem s.tasks new d w (λ _. room) h in
      let f : Task F → Task F = λ t'. record t' { waker = some id } in
      let (sound', at) = get_mut_lem f t id d sound word h in
      let (once', more, _) = wake_lem s.inner id id once in
      (
        id,
        record { inner = wake s.inner id; tasks = get_mut t id f },
        rw run refl,
        sound',
        free,
        merged f id d (get (get_mut t id f) d) (get t d) (get s.tasks d) new at other,
        ground (arith, more, ==_refl id),
        once',
      )
