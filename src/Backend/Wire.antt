-- ===== src/Backend/Wire.antt =====
-- What a write puts on the wire, and what it reports of it.
use xcom_lua.Prelude.{
  ℕ, zero, suc, ◌+◌, ◌-◌, ◌≤◌, ◌<◌, ◌≡◌, refl, sym, ap, ◌∙◌, ◌⊎◌, inl, inr, Bool, true, false, not,
  ◌||◌, List, [], ◌++◌, Option, none, some, arith,
}
use xcom_lua.Prelude.Tests.{leb, ◌==◌, Bool-cases}
use mathlib.Core.Path.{subst}
use mathlib.Core.List.{append_assoc, append-nil}
use xcom_lua.Prelude.Lists.{take, drop, take-append-take}
use xcom_lua.Backend.{
  Attempt, completes, fails, reaped, reap_fails, timed_out, wait_fails, Backend, WriteResult,
  error_success, serial_write_fault, error_invalid_parameter, WriteRound, ends, goes_on,
  settle_write, one_attempt, write_failed, min_of, takes, write_loop, serial_write,
  max_write_iterations,
}

-- What an attempt reports as moved, and what moved in one that did not complete.
abbrev pub reported : Attempt → ℕ
reported (completes n) = n
reported (fails error) = 0
reported (reaped n) = n
reported (reap_fails moved error) = 0
reported (timed_out moved stat) = 0
reported (wait_fails moved error) = 0

abbrev pub interrupted : Attempt → ℕ
interrupted (completes n) = 0
interrupted (fails error) = 0
interrupted (reaped n) = 0
interrupted (reap_fails moved error) = moved
interrupted (timed_out moved stat) = moved
interrupted (wait_fails moved error) = moved

-- What the first `made` attempts report together, none more than what was left of the message.
abbrev pub reported_by : (attempts : ℕ → Attempt) (size made : ℕ) → ℕ
reported_by attempts size zero = 0
reported_by attempts size (suc k) =
    let before = reported_by attempts size k in
    before + min_of (reported (attempts k)) (size - before)

-- The bytes that moved unreported: those of the last attempt, if it did not complete.
abbrev pub unreported : (attempts : ℕ → Attempt) (size made : ℕ) → ℕ
unreported attempts size zero = 0
unreported attempts size (suc k) =
    min_of (interrupted (attempts k)) (size - reported_by attempts size k)

-- The last attempt reported no progress.
abbrev pub HasStalled : (attempts : ℕ → Attempt) (made : ℕ) → Type 0
HasStalled attempts zero = ⊥
HasStalled attempts (suc k) = reported (attempts k) ≡ 0

-- A write of a message after `made` attempts, to a port that is `ready` for it or not, on a wire that
-- carried `before`: the bytes of the message follow in order, from the first to the last that moved, and
-- what the attempts reported is what the write reports. It succeeds exactly with the whole message, and
-- fails when it was not begun, when the last attempt reported no progress, or after eight attempts.
pub record IsSent (attempts : ℕ → Attempt) (content : List ℕ) (size : ℕ) (ready : Bool)
    (before : List ℕ) (r : WriteResult) : Type 0 where
  pub made : ℕ
  pub few : made ≤ 8
  pub counted : r.written ≡ reported_by attempts size made
  pub in_order : r.backend.wire ≡ before ++ take (r.written + unreported attempts size made) content
  pub within : r.written + unreported attempts size made ≤ size
  pub whole :
      (r.ok ≡ true) × (r.written ≡ size) × (ready ≡ true)
      ⊎ (r.ok ≡ false)
        × (((made ≡ 0) × (ready ≡ false))
            ⊎ (r.written < size) × (HasStalled attempts made ⊎ (made ≡ 8)))
  pub idle : r.backend.write_in_flight ≡ false

-- The last bytes that the driver took follow those before.
takes_wire :
    (content before : List ℕ) (total moved : ℕ) (b : Backend)
    → b.wire ≡ before ++ take total content
    → (takes content total moved b).wire ≡ before ++ take (total + moved) content
takes_wire content before total moved b sent = ground (
  arith,
  sent,
  append_assoc before (take total content) (take moved (drop total content)),
  take-append-take total moved content,
)

module _ (attempts : ℕ → Attempt) (content : List ℕ) (size : ℕ) (before : List ℕ) where
  -- Where the loop stands before the attempt `iteration`.
  record IsReady (iteration total : ℕ) (b : Backend) : Type 0 where
    few : iteration ≤ 8
    small : total < size
    counted : total ≡ reported_by attempts size iteration
    none_lost : unreported attempts size iteration ≡ 0
    sent : b.wire ≡ before ++ take total content
    idle : b.write_in_flight ≡ false

  abbrev Continues : (iteration : ℕ) → WriteRound → Type 0
  Continues iteration (ends r) = IsSent attempts content size true before r
  Continues iteration (goes_on total b) = IsReady (suc iteration) total b

  Continues-same :
      (iteration : ℕ) (r r' : WriteRound) → r' ≡ r → Continues iteration r → Continues iteration r'
  Continues-same iteration r r' same held = subst (Continues iteration) (sym same) held

  settle_write-Continues :
      (iteration total native_written : ℕ) (b : Backend)
      → iteration < 8
      → reported (attempts iteration) ≡ native_written
      → interrupted (attempts iteration) ≡ 0
      → IsReady iteration total b
      → Continues iteration (settle_write content size total native_written b)
  unfolding settle_write
  settle_write-Continues iteration total native_written b more told none_lost ready =
      let n = min_of native_written (size - total) in
      let b' : Backend = takes content total n b in
      let result = settle_write content size total native_written b in
      let sent = takes_wire content before total n b ready.sent in
      let fits : total + n ≤ size = ground (arith, ready.small) in
      let counted : total + n ≡ reported_by attempts size (suc iteration) =
        ground (arith, told, ready.counted) in
      let lost : unreported attempts size (suc iteration) ≡ 0 = ground (arith, none_lost) in
      elim (Bool-cases (leb size (total + n))) [
        | inl e ↦
            Continues-same iteration
              (ends (record {
                ok = true;
                written = total + n;
                error = error_success;
                line_status = 0;
                backend = b';
              }))
              result (ground (arith, e))
              (record {
                made = suc iteration;
                few = more;
                counted = counted;
                in_order = ground (arith, sent, lost);
                within = omega (arith, fits, lost);
                whole = inl (refl, ground (arith, e, fits), refl);
                idle = ready.idle;
              })
        | inr e ↦ elim (Bool-cases (n == 0)) [
          | inl f ↦
              Continues-same iteration (ends (write_failed (total + n) serial_write_fault b'))
                result (ground (arith, e, f))
                (record {
                  made = suc iteration;
                  few = more;
                  counted = counted;
                  in_order = ground (arith, sent, lost);
                  within = omega (arith, fits, lost);
                  whole =
                      inr
                        (refl, inr (ground (arith, e), inl (ground (arith, f, told, ready.small))));
                  idle = ready.idle;
                })
          | inr f ↦
              Continues-same iteration (goes_on (total + n) b') result (ground (arith, e, f))
                (record {
                  few = more;
                  small = ground (arith, e);
                  counted = counted;
                  none_lost = lost;
                  sent = sent;
                  idle = ready.idle;
                })
        ]
      ]

  take_none : (total : ℕ) → take (min_of 0 (size - total)) (drop total content) ≡ []
  take_none total = ap (λ (k : ℕ). take k (drop total content)) least
    where
      least : min_of 0 (size - total) ≡ 0
      least = ground arith

  -- The end of an attempt that did not complete.
  lost_attempt :
      (iteration total moved : ℕ) (b : Backend) (r : WriteResult)
      → iteration < 8
      → reported (attempts iteration) ≡ 0
      → interrupted (attempts iteration) ≡ moved
      → IsReady iteration total b
      → r.ok ≡ false
      → r.written ≡ total
      → r.backend.wire ≡ (takes content total (min_of moved (size - total)) b).wire
      → r.backend.write_in_flight ≡ false
      → IsSent attempts content size true before r
  lost_attempt iteration total moved b r more told lost ready failed written wire idle =
      let n = min_of moved (size - total) in
      let unseen : unreported attempts size (suc iteration) ≡ n =
        ground (arith, lost, ready.counted) in
      record {
        made = suc iteration;
        few = more;
        counted = ground (arith, told, written, ready.counted);
        in_order =
            ground (arith, wire, written, unseen, takes_wire content before total n b ready.sent);
        within = ground (arith, written, unseen, ready.small);
        whole = inr (failed, inr (omega (arith, written, ready.small), inl told));
        idle = idle;
      }

  one_attempt-Continues :
      (attempt : Attempt) (iteration total : ℕ) (b : Backend)
      → iteration < 8
      → attempts iteration ≡ attempt
      → IsReady iteration total b
      → Continues iteration (one_attempt attempt content size total b)
  unfolding one_attempt
  one_attempt-Continues (completes n) iteration total b more e ready =
      settle_write-Continues iteration total n b more (ap reported e) (ap interrupted e) ready
  one_attempt-Continues (fails error) iteration total b more e ready =
      lost_attempt iteration total 0 b (write_failed total error b) more (ap reported e)
        (ap interrupted e) ready refl refl
        (ground (arith, append-nil b.wire, ap (λ (xs : List ℕ). b.wire ++ xs) (take_none total)))
        ready.idle
  one_attempt-Continues (reaped n) iteration total b more e ready =
      settle_write-Continues iteration total n (record b { write_in_flight = false }) more
        (ap reported e) (ap interrupted e)
        (record {
          few = ready.few;
          small = ready.small;
          counted = ready.counted;
          none_lost = ready.none_lost;
          sent = ready.sent;
          idle = refl;
        })
  one_attempt-Continues (reap_fails moved error) iteration total b more e ready =
      lost_attempt iteration total moved b _ more (ap reported e) (ap interrupted e) ready refl refl
        refl refl
  one_attempt-Continues (timed_out moved stat) iteration total b more e ready =
      lost_attempt iteration total moved b _ more (ap reported e) (ap interrupted e) ready refl refl
        refl refl
  one_attempt-Continues (wait_fails moved error) iteration total b more e ready =
      lost_attempt iteration total moved b _ more (ap reported e) (ap interrupted e) ready refl refl
        refl refl

WriteRound-cases :
    (round : WriteRound)
    → ((r : WriteResult) × (round ≡ ends r))
      ⊎ ((total : ℕ) × (b : Backend) × (round ≡ goes_on total b))
WriteRound-cases (ends r) = inl (r, refl)
WriteRound-cases (goes_on total b) = inr (total, b, refl)

abbrev pub given : Option (List ℕ) → List ℕ
given none = []
given (some content) = content

-- A write begins only with a message that is not empty, on a port that is open.
abbrev pub begins : Option (List ℕ) → (size : ℕ) → Backend → Bool
begins none size b = false
begins (some content) size b = not (not b.opened || not b.port_valid || size == 0)

write_loop-IsSent :
    (left : ℕ) (attempts : ℕ → Attempt) (content : List ℕ) (size iteration : ℕ) (before : List ℕ)
    (total : ℕ) (b : Backend)
    → iteration + left ≡ 8
    → IsReady attempts content size before iteration total b
    → IsSent attempts content size true before
        (write_loop left attempts content size iteration total b)
unfolding write_loop
write_loop-IsSent zero attempts content size iteration before total b at_end ready =
    let last : iteration ≡ 8 = omega (arith, at_end) in
    let lost = sym (ap (unreported attempts size) last) ∙ ready.none_lost in
    record {
      made = 8;
      few = omega arith;
      counted = ready.counted ∙ ap (reported_by attempts size) last;
      in_order = ground (arith, lost, ready.sent);
      within = omega (arith, lost, ready.small);
      whole = inr (refl, inr (ready.small, inr refl));
      idle = ready.idle;
    }
write_loop-IsSent (suc left) attempts content size iteration before total b at_end ready =
    let round = one_attempt (attempts iteration) content size total b in
    let next =
      one_attempt-Continues attempts content size before (attempts iteration) iteration total b
        (omega (arith, at_end)) refl ready in
    let result = write_loop (suc left) attempts content size iteration total b in
    elim (WriteRound-cases round) [
      | inl (r, e) ↦
          let over : result ≡ r = ground (arith, e) in
          subst (IsSent attempts content size true before) (sym over)
            (subst (Continues attempts content size before iteration) e next)
      | inr (total', b', e) ↦
          let over : result ≡ write_loop left attempts content size (suc iteration) total' b' =
            ground (arith, e) in
          subst (IsSent attempts content size true before) (sym over) (
            write_loop-IsSent left attempts content size (suc iteration) before total' b'
              (omega (arith, at_end))
              (subst (Continues attempts content size before iteration) e next))
    ]

-- A write without a pending one makes at most eight attempts, and reports the sum of what they report,
-- each clamped to what was left. After it the wire carries what it carried before, and after that the
-- bytes of the message in order, from the first on: as many as the write reports, and those that moved in
-- its last attempt if that failed while it was pending, which it does not report. It succeeds only with the
-- whole message; it fails when there is no message or no open port, and else only short of the whole,
-- after an attempt that reported no progress, or after eight attempts. No write is in flight any more.
pub serial_write-IsSent :
    (attempts : ℕ → Attempt) (content : Option (List ℕ)) (size : ℕ) (b : Backend)
    → b.write_in_flight ≡ false
    → IsSent attempts
        (given content)
        size
        (begins content size b)
        b.wire
        (serial_write attempts content size b)
unfolding serial_write
serial_write-IsSent attempts none size b idle = record {
  made = 0;
  few = omega arith;
  counted = refl;
  in_order = sym (append-nil b.wire);
  within = omega arith;
  whole = inr (refl, inl (refl, refl));
  idle = idle;
}
serial_write-IsSent attempts (some content) size b idle =
    let result = serial_write attempts (some content) size b in
    let ready = begins (some content) size b in
    let start = sym (append-nil b.wire) in
    elim (Bool-cases (not b.opened || not b.port_valid || size == 0)) [
      | inl e ↦
          let over : result ≡ write_failed 0 error_invalid_parameter b = ground (arith, e) in
          subst (IsSent attempts content size ready b.wire) (sym over) (record {
            made = 0;
            few = omega arith;
            counted = refl;
            in_order = start;
            within = omega arith;
            whole = inr (refl, inl (refl, ground (arith, e)));
            idle = idle;
          })
      | inr e ↦
          let over : result ≡ write_loop max_write_iterations attempts content size 0 0 b =
            ground (arith, e) in
          let begun : ready ≡ true = ground (arith, e) in
          subst (IsSent attempts content size ready b.wire) (sym over) (
            subst
              (λ (r : Bool).
                IsSent attempts content size r b.wire
                  (write_loop max_write_iterations attempts content size 0 0 b))
              (sym begun)
              (write_loop-IsSent max_write_iterations attempts content size 0 b.wire 0 b refl
                (record {
                  few = omega arith;
                  small = ground (arith, e);
                  counted = refl;
                  none_lost = refl;
                  sent = start;
                  idle = idle;
                })))
    ]
