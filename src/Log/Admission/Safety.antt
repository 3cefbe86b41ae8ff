-- ===== src/Log/Admission/Safety.antt =====
-- No lease outlives a close that has drained.
use xcom_lua.Prelude.{
  ℕ, zero, suc, ◌+◌, ◌≤◌, ◌<◌, ◌≡◌, ◌≢◌, refl, sym, ◌∙◌, inl, inr, Bool, true, false, arith,
}
use xcom_lua.Prelude.Tests.{◌==◌, Bool-cases}
use xcom_lua.Prelude.Word.{u32_mod}
use xcom_lua.Log.Admission.{
  Appender, outside, seen, counted, refused, leased, Closer, not_closing, waiting, drained, Gate,
  release_append_lease, appender_step, closer_step, System, update, Step, append, close, reopen,
  initial, Reach, here, next,
}

-- 1 for a thread that the counter counts.
abbrev pub in_flight : Appender → ℕ
in_flight outside = 0
in_flight seen = 0
in_flight counted = 1
in_flight refused = 1
in_flight leased = 1

-- How many of the first `n` threads the counter counts.
abbrev pub flying : ℕ → (ℕ → Appender) → ℕ
flying zero f = 0
flying (suc n) f = flying n f + in_flight (f n)

flying-update_ge :
    (n i : ℕ) (f : ℕ → Appender) (a : Appender) → n ≤ i → flying n (update f i a) ≡ flying n f
flying-update_ge zero i f a h = refl
flying-update_ge (suc n) i f a h = ground (arith, flying-update_ge n i f a)

pub flying-update :
    (n i : ℕ) (f : ℕ → Appender) (a : Appender)
    → i < n
    → flying n (update f i a) + in_flight (f i) ≡ flying n f + in_flight a
flying-update zero i f a h = absurd (omega arith)
flying-update (suc n) i f a h = elim (Bool-cases (i == n)) [
  | inl e ↦ ground (arith, flying-update_ge n i f a)
  | inr e ↦ ground (arith, flying-update n i f a)
]

in_flight_le : (a : Appender) → in_flight a ≤ 1
in_flight_le a = ground arith

pub flying_le : (n : ℕ) (f : ℕ → Appender) → flying n f ≤ n
flying_le zero f = omega arith
flying_le (suc n) f = omega (arith, flying_le n f, in_flight_le (f n))

pub flying_pos : (n i : ℕ) (f : ℕ → Appender) → i < n → in_flight (f i) ≤ flying n f
flying_pos zero i f h = absurd (omega arith)
flying_pos (suc n) i f h = elim (Bool-cases (i == n)) [
  | inl e ↦ ground arith
  | inr e ↦ ground (arith, flying_pos n i f)
]

-- The counter is exact, a close keeps the gate shut, after it has drained no lease is held, and a close
-- that waits for nobody any more has its signal.
pub record IsSound (n : ℕ) (s : System) : Type 0 where
  pub exact : s.gate.appenders_in_flight ≡ flying n s.appenders
  pub shut : s.closer ≢ not_closing → s.gate.accepting_log ≡ false
  pub none_leased : s.closer ≡ drained → (i : ℕ) → i < n → s.appenders i ≢ leased
  pub signalled :
      s.closer ≡ waiting → s.gate.appenders_in_flight ≡ 0 → s.gate.drained_signalled ≡ true

in_flight_step :
    (g : Gate) (a : Appender) (k : ℕ)
    → g.appenders_in_flight ≡ k
    → in_flight a ≤ k
    → suc k < u32_mod
    → (appender_step g a).0.appenders_in_flight + in_flight a ≡ k + in_flight (appender_step g a).1
unfolding appender_step
in_flight_step g a k e h small = ground arith

closer_step_lem :
    (g : Gate) (expired : Bool) (c : Closer)
    → (c ≢ not_closing → g.accepting_log ≡ false)
    → ((closer_step g expired c).0.appenders_in_flight ≡ g.appenders_in_flight)
      × ((closer_step g expired c).0.accepting_log ≡ false)
      × ((closer_step g expired c).1 ≡ drained → g.appenders_in_flight ≡ 0)
unfolding closer_step
closer_step_lem g expired c shut = ground arith

closer_signal :
    (g : Gate) (expired : Bool) (c : Closer)
    → (c ≡ waiting → g.appenders_in_flight ≡ 0 → g.drained_signalled ≡ true)
    → (closer_step g expired c).1 ≡ waiting
    → (closer_step g expired c).0.appenders_in_flight ≡ 0
    → (closer_step g expired c).0.drained_signalled ≡ true
unfolding closer_step
closer_signal g expired c had h k = ground (arith, had, h, k)

-- The last one out signals.
appender_signal :
    (g : Gate) (a : Appender)
    → in_flight a ≤ g.appenders_in_flight
    → suc g.appenders_in_flight < u32_mod
    → (g.appenders_in_flight ≡ 0 → g.drained_signalled ≡ true)
    → (appender_step g a).0.appenders_in_flight ≡ 0
    → (appender_step g a).0.drained_signalled ≡ true
unfolding appender_step release_append_lease
appender_signal g a h small had k = ground (arith, had, h, k, small)

flying_outside : (n : ℕ) → flying n (λ i. outside) ≡ 0
flying_outside zero = refl
flying_outside (suc n) = omega (arith, flying_outside n)

module _ (n : ℕ) (few : suc n < u32_mod) where
  appender_exact :
      (i : ℕ) (s : System)
      → i < n
      → IsSound n s
      → (appender_step s.gate (s.appenders i)).0.appenders_in_flight
        ≡ flying n (update s.appenders i (appender_step s.gate (s.appenders i)).1)
  appender_exact i s h sound =
      let enough = flying_pos n i s.appenders h in
      let few_flying = flying_le n s.appenders in
      omega (
        arith,
        in_flight_step s.gate (s.appenders i) (flying n s.appenders) sound.exact enough
            (omega arith),
        flying-update n i s.appenders (appender_step s.gate (s.appenders i)).1 h,
      )

  appender_gate : (g : Gate) (a : Appender) → (appender_step g a).0.accepting_log ≡ g.accepting_log
  unfolding appender_step
  appender_gate g a = ground arith

  appender_unleased :
      (g : Gate) (a : Appender) → g.accepting_log ≡ false → (appender_step g a).1 ≢ leased
  unfolding appender_step
  appender_unleased g a h = ground arith

  flying_zero : (f : ℕ → Appender) → flying n f ≡ 0 → (i : ℕ) → i < n → f i ≢ leased
  flying_zero f h i lt e = ground (arith, flying_pos n i f lt)

  update_unleased :
      (f : ℕ → Appender) (i j : ℕ) (a : Appender)
      → a ≢ leased
      → f j ≢ leased
      → update f i a j ≢ leased
  update_unleased f i j a h k = ground arith

  resting_waits : not_closing ≢ waiting
  resting_waits h = ground arith

  closing : (c : Closer) → c ≡ drained → c ≢ not_closing
  closing c h k = ground arith

  Step-IsSound : {s t : System} → Step n s t → IsSound n s → IsSound n t
  Step-IsSound {s} {t} (append i lt e) sound = rw e (record {
    exact = appender_exact i s lt sound;
    shut = λ h. appender_gate s.gate (s.appenders i) ∙ sound.shut h;
    none_leased = λ h j lt'.
        update_unleased s.appenders i j (appender_step s.gate (s.appenders i)).1
          (appender_unleased s.gate (s.appenders i) (sound.shut (λ c. closing s.closer h c)))
          (sound.none_leased h j lt');
    signalled = λ h k.
        appender_signal s.gate (s.appenders i)
          (omega (arith, sound.exact, flying_pos n i s.appenders lt))
          (omega (arith, sound.exact, flying_le n s.appenders)) (sound.signalled h) k;
  })
  Step-IsSound {s} {t} (close expired e) sound =
      let (same, off, empty) = closer_step_lem s.gate expired s.closer sound.shut in
      rw e (record {
        exact = same ∙ sound.exact;
        shut = λ h. off;
        none_leased = λ h. flying_zero s.appenders (sym sound.exact ∙ empty h);
        signalled = closer_signal s.gate expired s.closer sound.signalled;
      })
  Step-IsSound (reopen success resting e) sound = rw e (record {
    exact = sound.exact;
    shut = λ h. absurd (h refl);
    none_leased = λ h. absurd (closing not_closing h refl);
    signalled = λ h. absurd (resting_waits h);
  })

  initial-IsSound : IsSound n initial
  initial-IsSound = record {
    exact = sym (flying_outside n);
    shut = λ h. refl;
    none_leased = λ h. absurd (closing not_closing h refl);
    signalled = λ h. absurd (resting_waits h);
  }

  pub Reach-IsSound : {s : System} → Reach n initial s → IsSound n s
  Reach-IsSound here = initial-IsSound
  Reach-IsSound (next r st) = Step-IsSound st (Reach-IsSound r)

  -- However the appenders and the closer take turns, once close_append_admission has returned true no
  -- appender holds a lease, and none gets one before a file is opened again. For fewer than 2^32 - 1
  -- appenders.
  pub no_lease_after_close :
      {s : System}
      → Reach n initial s
      → s.closer ≡ drained
      → (i : ℕ) → i < n
      → s.appenders i ≢ leased
  no_lease_after_close r h = (Reach-IsSound r).none_leased h
