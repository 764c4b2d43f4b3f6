-- ===== src/Runtime/Tests/Tasks.antt =====
-- Concrete inputs for the theorems on the executor.
use koru.Prelude.{
  ℕ, ◌-◌, ◌≡◌, refl, true, false, none, some, [], ◌∷◌, arith, Distinct, ◌==◌, if◌then◌else◌,
}
use koru.Prelude.Partial.{◌>>=◌}
use koru.Runtime.Cookie.{Cookie, index, generation}
use koru.Runtime.Slab.{free, live, get, get_mut}
use koru.Runtime.Slab.Invariant.{IsValid}
use koru.Runtime.Reactor.{Inner, contains}
use koru.Runtime.Exec.{Runtime, Poll, hollow, poll_task, spawn}
use koru.Runtime.Exec.Tasks.{poll_task_lem, spawn_lem}
use koru.Runtime.Tests.Slabs.{held}
use koru.Runtime.Tests.Reactors.{inner}

-- Task 7 is ready.
abbrev waiting : Inner
waiting = record inner { ready_queue = 7 ∷ [] }

waiting-Distinct : Distinct waiting.ready_queue
waiting-Distinct = (tt, tt)

-- A task whose future is 30; a future counts down, and is ready at 0.
abbrev runtime : Runtime ℕ
runtime = record {
  inner = waiting;
  tasks = record {
    entries = free 4 ∷ live 2 (record { fut = some 30; waker = some held }) ∷ [];
    free_list = 0 ∷ [];
    live_count = 1;
  };
}

abbrev count_down : Poll ℕ
count_down fut waker s = (fut == 0, fut - 1, s)

abbrev polled_once : Runtime ℕ
polled_once = record runtime {
  tasks = record {
    entries = free 4 ∷ live 2 (record { fut = none; waker = some held }) ∷ [];
    free_list = 0 ∷ [];
    live_count = 1;
  };
}

polled_once-IsValid : IsValid polled_once.tasks
polled_once-IsValid = record {
  generations = ((omega arith, omega arith), ((omega arith, omega arith), tt));
  frees = ((4, refl), tt);
  distinct = (tt, tt);
  counted = refl;
  addressable = omega arith;
}

runtime-IsValid : IsValid runtime.tasks
runtime-IsValid = record {
  generations = ((omega arith, omega arith), ((omega arith, omega arith), tt));
  frees = ((4, refl), tt);
  distinct = (tt, tt);
  counted = refl;
  addressable = omega arith;
}

runtime-get : get runtime.tasks held ≡ some (record { fut = some 30; waker = some held })
unfolding get index generation
runtime-get = refl

runtime-hollow : count_down 30 held (hollow runtime held) ≡ (false, 29, polled_once)
unfolding hollow get_mut index generation
runtime-hollow = refl

runtime-stale : get runtime.tasks 0x3_0000_0001 ≡ none
unfolding get index generation
runtime-stale = refl

poll_task_lem_example :
    (get (hollow runtime held).tasks held ≡ (
      if held == held
      then some (record { fut = none; waker = some held })
      else get runtime.tasks held))
    × ((hollow runtime held).inner ≡ runtime.inner)
    × IsValid (poll_task count_down runtime held).tasks
    × (get (poll_task count_down runtime held).tasks held ≡ (
        if held == held
        then (if false
            then none
            else get polled_once.tasks held >>= (λ t'. some (record t' { fut = some 29 })))
        else get polled_once.tasks held))
poll_task_lem_example =
    poll_task_lem count_down runtime polled_once held held 30 29 held false runtime-IsValid
      runtime-get runtime-hollow polled_once-IsValid (omega arith) (omega arith)

spawn_lem_example :
    (id : Cookie) × (u : Runtime ℕ) × (spawn runtime 40 ≡ some (id, u))
    × IsValid u.tasks
    × (get runtime.tasks id ≡ none)
    × (get u.tasks held ≡ (
        if held == id
        then some (record { fut = some 40; waker = some id })
        else get runtime.tasks held))
    × (contains u.inner.ready_queue id ≡ true)
    × Distinct u.inner.ready_queue
spawn_lem_example =
    spawn_lem runtime 40 held runtime-IsValid (omega arith) waiting-Distinct (omega arith)
