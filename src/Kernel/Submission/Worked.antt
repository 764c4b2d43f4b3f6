-- ===== src/Kernel/Submission/Worked.antt =====
-- Workers that run one after the other keep a ring's accounts: `run_all`.
use koru.Prelude.{ℕ, ◌+◌, ◌≡◌, refl, ◌∙◌, Option, none, some, List, [], ◌∷◌, arith, get_elem?}
use koru.Kernel.Ring.{RingState}
use koru.Kernel.Ring.Queue.{IsSound}
use koru.Kernel.Host.{Worker}
use koru.Kernel.Ctx.{RingCtx, OpWork}
use koru.Kernel.Work.{run_at, run_all}
use koru.Kernel.Ops.Accounts.{IsAccounted}
use koru.Kernel.Ops.Workers.{run_lem}

-- Answers that a ring still owes or holds.
abbrev pub owed : RingState → ℕ
owed s = s.inflight + s.len

-- An accounted, sound device that owes what `me` does, in places as in answers.
pub record Kept (me t : RingCtx) : Type 0 where
  pub accounts : IsAccounted t
  pub sound : IsSound t.state
  pub config : t.config ≡ me.config
  pub owes : owed t.state ≡ owed me.state
  pub places : t.state.reserved + t.state.len ≡ me.state.reserved + me.state.len

Kept-refl : (me : RingCtx) → IsAccounted me → IsSound me.state → Kept me me
Kept-refl me acc w = record { accounts = acc; sound = w; config = refl; owes = refl; places = refl }

Kept-trans : (me t u : RingCtx) → Kept me t → Kept t u → Kept me u
Kept-trans me t u a b = record {
  accounts = b.accounts;
  sound = b.sound;
  config = b.config ∙ a.config;
  owes = b.owes ∙ a.owes;
  places = b.places ∙ a.places;
}

run_at-Kept :
    (w : Worker) (me : RingCtx) (i : ℕ) (o : Option OpWork)
    → get_elem? me.pending i ≡ o
    → IsAccounted me
    → IsSound me.state
    → (t : RingCtx) × (run_at w me o ≡ some t) × Kept me t
unfolding run_at
run_at-Kept w me i none there acc sound = (me, refl, Kept-refl me acc sound)
run_at-Kept w me i (some op) there acc sound =
    let (t, run, f) = run_lem w me i op acc sound there in
    (
      t,
      run,
      record {
        accounts = f.accounts;
        sound = f.sound;
        config = f.config;
        owes = omega (arith, f.inflight, f.len);
        places = omega (arith, f.reserved, f.len);
      },
    )

pub run_all-Kept :
    (ws : List (Worker × ℕ)) (me : RingCtx)
    → IsAccounted me
    → IsSound me.state
    → (t : RingCtx) × (run_all ws me ≡ some t) × Kept me t
unfolding run_all
run_all-Kept [] me acc sound = (me, refl, Kept-refl me acc sound)
run_all-Kept ((w, i) ∷ ws) me acc sound =
    let (t, one, a) = run_at-Kept w me i (get_elem? me.pending i) refl acc sound in
    let (u, rest, b) = run_all-Kept ws t a.accounts a.sound in
    (u, rw one rest, Kept-trans me t u a b)
