-- ===== src/Log/Admission/Drains.antt =====
-- A close can always finish.
use xcom_lua.Prelude.{ℕ, zero, suc, ◌≤◌, ◌<◌, ◌≡◌, ◌≢◌, refl, ap, ◌∙◌, ◌⊎◌, inl, inr, false, arith}
use Prim.{Unit, tt}
use mathlib.Core.Path.{subst}
use xcom_lua.Prelude.Tests.{◌==◌, Bool-cases, ==_iff}
use xcom_lua.Prelude.Word.{u32_mod}
use xcom_lua.Log.Admission.{
  Appender, outside, seen, counted, refused, leased, Closer, not_closing, checking, waiting,
  drained, gave_up, Gate, appender_step, closer_step, System, update, append, initial, Reach, here,
  next,
}
use xcom_lua.Log.Admission.Safety.{in_flight, flying, IsSound, Reach-IsSound}

Reach-trans : {n : ℕ} {s t u : System} → Reach n s t → Reach n t u → Reach n s u
Reach-trans r here = r
Reach-trans r (next q st) = next (Reach-trans r q) st

-- The system after the next access of appender `i`, and of the closer.
abbrev pub appended : ℕ → System → System
appended i s = record s {
  gate = (appender_step s.gate (s.appenders i)).0;
  appenders = update s.appenders i (appender_step s.gate (s.appenders i)).1;
}

abbrev pub closed : System → System
closed s = record s {
  gate = (closer_step s.gate false s.closer).0;
  closer = (closer_step s.gate false s.closer).1;
}

-- The closer, which is at `c`, returns true by its next access, or by its next two.
abbrev pub WillDrain : System → Closer → Type 0
WillDrain s not_closing = Unit
WillDrain s checking = (closed s).closer ≡ drained
WillDrain s waiting = ((closed s).closer ≡ checking) × ((closed (closed s)).closer ≡ drained)
WillDrain s drained = Unit
WillDrain s gave_up = Unit

-- From `s`, accesses of the first `n` appenders alone lead to a system.
pub data Alone (n : ℕ) (s : System) : System → Type 0 where
  stays : Alone n s s
  moves : {t : System} → Alone n s t → (i : ℕ) → i < n → Alone n s (appended i t)

Alone-trans : {n : ℕ} {s t u : System} → Alone n s t → Alone n t u → Alone n s u
Alone-trans p stays = p
Alone-trans p (moves q i lt) = moves (Alone-trans p q) i lt

Alone→Reach : {n : ℕ} {s t : System} → Alone n s t → Reach n s t
Alone→Reach stays = here
Alone→Reach (moves q i lt) = next (Alone→Reach q) (append i lt refl)

-- From `s`, appenders alone bring about `t`: the gate stays shut, the closer where it is, and no
-- thread that was not in flight comes to be.
pub record Settled (n : ℕ) (s t : System) : Type 0 where
  pub alone : Alone n s t
  pub shut : t.gate.accepting_log ≡ false
  pub same : t.closer ≡ s.closer
  pub fewer : (j : ℕ) → in_flight (t.appenders j) ≤ in_flight (s.appenders j)

flying_fewer :
    (m : ℕ) (f g : ℕ → Appender)
    → ((j : ℕ) → in_flight (g j) ≤ in_flight (f j))
    → flying m g ≤ flying m f
flying_fewer zero f g h = omega arith
flying_fewer (suc m) f g h = omega (arith, flying_fewer m f g h, h m)

busy_closing : (c : Closer) → (c ≡ checking) ⊎ (c ≡ waiting) → c ≢ not_closing
busy_closing c h e = ground arith

module _ (n : ℕ) where
  Settled-trans : {s t u : System} → Settled n s t → Settled n t u → Settled n s u
  Settled-trans a b = record {
    alone = Alone-trans a.alone b.alone;
    shut = b.shut;
    same = b.same ∙ a.same;
    fewer = λ j. omega (arith, a.fewer j, b.fewer j);
  }

  Settled-refl : (s : System) → s.gate.accepting_log ≡ false → Settled n s s
  Settled-refl s h = record { alone = stays; shut = h; same = refl; fewer = λ j. omega arith }

  update_fewer :
      (f : ℕ → Appender) (i j : ℕ) (a : Appender)
      → in_flight a ≤ in_flight (f i)
      → in_flight (update f i a j) ≤ in_flight (f j)
  update_fewer f i j a h = elim (Bool-cases (i == j)) [
    | inl e ↦ ground (arith, ap f ((==_iff i j).0 e))
    | inr e ↦ ground arith
  ]

  step_fewer : (g : Gate) (a : Appender) → a ≢ seen → in_flight (appender_step g a).1 ≤ in_flight a
  unfolding appender_step
  step_fewer g a h = ground arith

  step_shut : (g : Gate) (a : Appender) → (appender_step g a).0.accepting_log ≡ g.accepting_log
  unfolding appender_step
  step_shut g a = ground arith

  appended-Settled :
      (i : ℕ) (s : System)
      → i < n
      → s.gate.accepting_log ≡ false
      → s.appenders i ≢ seen
      → Settled n s (appended i s)
  appended-Settled i s lt shut unseen = record {
    alone = moves stays i lt;
    shut = step_shut s.gate (s.appenders i) ∙ shut;
    same = refl;
    fewer = λ j.
        update_fewer s.appenders i j (appender_step s.gate (s.appenders i)).1
          (step_fewer s.gate (s.appenders i) unseen);
  }

  update_self : {A : Type 0} (f : ℕ → A) (i : ℕ) (a : A) → update f i a i ≡ a
  update_self f i a = ground arith

  lands : (g : Gate) (a : Appender) → (a ≡ refused) ⊎ (a ≡ leased) → (appender_step g a).1 ≡ outside
  unfolding appender_step
  lands g a h = ground arith

  backs_off : (g : Gate) → g.accepting_log ≡ false → (appender_step g counted).1 ≡ refused
  unfolding appender_step
  backs_off g h = ground arith

  -- A thread that has been refused, or that holds a lease, is out after one access.
  settle_last :
      (i : ℕ) (s : System)
      → i < n
      → s.gate.accepting_log ≡ false
      → (s.appenders i ≡ refused) ⊎ (s.appenders i ≡ leased)
      → (t : System) × Settled n s t × (in_flight (t.appenders i) ≡ 0)
  settle_last i s lt shut last = (
    appended i s,
    appended-Settled i s lt shut (λ e. ground arith),
    ap in_flight (
        update_self s.appenders i (appender_step s.gate (s.appenders i)).1
        ∙ lands s.gate (s.appenders i) last),
  )

  -- One thread, in at most two accesses.
  settle :
      (i : ℕ) (s : System) (a : Appender)
      → i < n
      → s.gate.accepting_log ≡ false
      → s.appenders i ≡ a
      → (t : System) × Settled n s t × (in_flight (t.appenders i) ≡ 0)
  settle i s outside lt shut e = (s, Settled-refl s shut, ap in_flight e)
  settle i s seen lt shut e = (s, Settled-refl s shut, ap in_flight e)
  settle i s counted lt shut e =
      let first = appended-Settled i s lt shut (λ h. ground arith) in
      let refused_now =
        update_self s.appenders i (appender_step s.gate (s.appenders i)).1
        ∙ ap (λ a. (appender_step s.gate a).1) e
        ∙ backs_off s.gate shut in
      let (t, rest, out) = settle_last i (appended i s) lt first.shut (inl refused_now) in
      (t, Settled-trans first rest, out)
  settle i s refused lt shut e = settle_last i s lt shut (inl e)
  settle i s leased lt shut e = settle_last i s lt shut (inr e)

  -- The first `m` threads, one after the other.
  settle_all :
      (m : ℕ) (s : System)
      → m ≤ n
      → s.gate.accepting_log ≡ false
      → (t : System) × Settled n s t × (flying m t.appenders ≡ 0)
  settle_all zero s h shut = (s, Settled-refl s shut, refl)
  settle_all (suc m) s h shut =
      let (t, first, out) = settle_all m s (omega arith) shut in
      let (u, rest, last) = settle m t (t.appenders m) (omega arith) first.shut refl in
      (
        u,
        Settled-trans first rest,
        omega (arith, last, out, flying_fewer m t.appenders u.appenders rest.fewer),
      )

  -- Two accesses of the closer, with no timeout over.
  finishes : (s : System) → IsSound n s → flying n s.appenders ≡ 0 → WillDrain s s.closer
  unfolding closer_step
  finishes s sound none_left = go s.closer refl
    where
      empty : s.gate.appenders_in_flight ≡ 0
      empty = sound.exact ∙ none_left

      go : (c : Closer) → s.closer ≡ c → WillDrain s c
      go checking e = ground (arith, e, empty)
      go waiting e = ground (arith, e, empty, sound.signalled e empty)
      go not_closing e = tt
      go drained e = tt
      go gave_up e = tt

  module _ (few : suc n < u32_mod) where
    -- From every state that is reached in a close, of however long a timeout, there is a run of accesses of
    -- the appenders alone, with the gate shut, after which none is in flight; and then the closer returns
    -- true by its next access if it checks the counter, and if it waits, it has its signal and returns true
    -- by the next two, although no timeout is over. For fewer than 2^32 - 1 appenders.
    pub close_can_drain :
        {s : System}
        → Reach n initial s
        → (s.closer ≡ checking) ⊎ (s.closer ≡ waiting)
        → (t : System) × Settled n s t × (flying n t.appenders ≡ 0) × WillDrain t s.closer
    close_can_drain {s} r busy =
        let (t, settled, none_left) =
          settle_all n s (omega arith)
            ((Reach-IsSound n few r).shut (busy_closing s.closer busy)) in
        let sound = Reach-IsSound n few (Reach-trans r (Alone→Reach settled.alone)) in
        (t, settled, none_left, subst (WillDrain t) settled.same (finishes t sound none_left))

    -- In every state that is reached with no appender in flight, whatever has happened before, a closer that
    -- checks the counter returns true by its next access, and one that waits by the next two, although no
    -- timeout is over. For fewer than 2^32 - 1 appenders.
    pub close_drains :
        {s : System} → Reach n initial s → flying n s.appenders ≡ 0 → WillDrain s s.closer
    close_drains {s} r none_left = finishes s (Reach-IsSound n few r) none_left
