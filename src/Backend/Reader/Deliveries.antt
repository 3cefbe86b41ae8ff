-- ===== src/Backend/Reader/Deliveries.antt =====
-- What the read thread delivers, and how it ends.
use mathlib.Core.Path.{subst}
use mathlib.Core.List.{append_assoc, append-nil}
use xcom_lua.Prelude.{
  ℕ, ◌≡◌, refl, sym, ap, ◌∙◌, ◌⊎◌, inl, inr, Bool, true, false, not, List, [], ◌∷◌, ◌++◌, arith,
}
use xcom_lua.Prelude.Tests.{if◌then◌else◌, Bool-cases}
use xcom_lua.Prelude.Lists.{take}
use xcom_lua.Backend.Reader.{
  read_chunk_bytes, error_operation_aborted, Reading, complete, read_fails, never_released,
  stop_alone, wait_failed, reaped_read, reap_failed, Call, read_beat, line_poll, on_read, on_fault,
  Reader, call, deliver, fault_unless, one_read, read_loop,
}

abbrev pub bytes_of : List Call → List ℕ
bytes_of [] = []
bytes_of (read_beat ∷ calls) = bytes_of calls
bytes_of (line_poll ∷ calls) = bytes_of calls
bytes_of (on_read bytes ∷ calls) = bytes ++ bytes_of calls
bytes_of (on_fault error ∷ calls) = bytes_of calls

abbrev pub faults_of : List Call → List ℕ
faults_of [] = []
faults_of (read_beat ∷ calls) = faults_of calls
faults_of (line_poll ∷ calls) = faults_of calls
faults_of (on_read bytes ∷ calls) = faults_of calls
faults_of (on_fault error ∷ calls) = error ∷ faults_of calls

-- The bytes that the kernel moved in a round, within the buffer; a failed completion may have some.
abbrev pub moved : Reading → List ℕ
moved (complete bytes) = take read_chunk_bytes bytes
moved (reaped_read bytes stopped) = take read_chunk_bytes bytes
moved (reap_failed bytes error stopped) = take read_chunk_bytes bytes
moved (read_fails error stopped) = []
moved never_released = []
moved stop_alone = []
moved (wait_failed error stopped) = []

-- Whether the thread goes on after the round.
abbrev pub goes_on : Reading → Bool
goes_on (complete bytes) = true
goes_on (reaped_read bytes stopped) = not stopped
goes_on (read_fails error stopped) = false
goes_on (reap_failed bytes error stopped) = false
goes_on never_released = false
goes_on stop_alone = false
goes_on (wait_failed error stopped) = false

-- Whether the device ended the session in the round, with no stop asked for.
abbrev pub device_failed : Reading → Bool
device_failed (complete bytes) = false
device_failed (reaped_read bytes stopped) = false
device_failed (read_fails error stopped) = not stopped
device_failed (reap_failed bytes error stopped) = not stopped
device_failed never_released = false
device_failed stop_alone = false
device_failed (wait_failed error stopped) = not stopped

abbrev pub moved_in : List Reading → List ℕ
moved_in [] = []
moved_in (x ∷ xs) = moved x ++ (if goes_on x then moved_in xs else [])

abbrev pub device_failed_in : List Reading → Bool
device_failed_in [] = false
device_failed_in (x ∷ xs) = if goes_on x then device_failed_in xs else device_failed x

bytes_of-append : (xs ys : List Call) → bytes_of (xs ++ ys) ≡ bytes_of xs ++ bytes_of ys
bytes_of-append [] ys = refl
bytes_of-append (read_beat ∷ xs) ys = bytes_of-append xs ys
bytes_of-append (line_poll ∷ xs) ys = bytes_of-append xs ys
bytes_of-append (on_read bytes ∷ xs) ys =
    ap (λ (zs : List ℕ). bytes ++ zs) (bytes_of-append xs ys)
    ∙ sym (append_assoc bytes (bytes_of xs) (bytes_of ys))
bytes_of-append (on_fault error ∷ xs) ys = bytes_of-append xs ys

faults_of-append : (xs ys : List Call) → faults_of (xs ++ ys) ≡ faults_of xs ++ faults_of ys
faults_of-append [] ys = refl
faults_of-append (read_beat ∷ xs) ys = faults_of-append xs ys
faults_of-append (line_poll ∷ xs) ys = faults_of-append xs ys
faults_of-append (on_read bytes ∷ xs) ys = faults_of-append xs ys
faults_of-append (on_fault error ∷ xs) ys =
    ap (λ (zs : List ℕ). error ∷ zs) (faults_of-append xs ys)

-- How a thread comes from `r` to `r'`: it makes the calls `quiet`, with no fault among them, and then
-- perhaps reports one fault and clears open_.
pub record IsRead (bytes : List ℕ) (failed : Bool) (r r' : Reader) : Type 0 where
  pub quiet : List Call
  pub delivered : bytes_of quiet ≡ bytes
  pub no_faults : faults_of quiet ≡ []
  pub ending :
      ((r'.calls ≡ r.calls ++ quiet) × (r'.opened ≡ r.opened) × (failed ≡ false))
      ⊎ ((error : ℕ) × (r'.calls ≡ r.calls ++ (quiet ++ (on_fault error ∷ [])))
          × (r'.opened ≡ false))

abbrev deliveries : List ℕ → List Call
deliveries [] = []
deliveries (byte ∷ bytes) = on_read (take read_chunk_bytes (byte ∷ bytes)) ∷ []

deliver_lem :
    (bytes : List ℕ) (r : Reader)
    → ((deliver bytes r).calls ≡ r.calls ++ deliveries bytes)
      × ((deliver bytes r).opened ≡ r.opened)
      × (bytes_of (deliveries bytes) ≡ take read_chunk_bytes bytes)
      × (faults_of (deliveries bytes) ≡ [])
unfolding deliver
deliver_lem [] r = (sym (append-nil r.calls), refl, refl, refl)
deliver_lem (byte ∷ bytes) r = (refl, refl, append-nil (take read_chunk_bytes (byte ∷ bytes)), refl)

-- A round that makes the calls `before`, delivers `bytes`, and reports a fault unless a stop was asked for.
round_IsRead :
    (before : List Call) (bytes : List ℕ) (stopped : Bool) (error : ℕ) (r : Reader)
    → bytes_of before ≡ []
    → faults_of before ≡ []
    → IsRead
        (take read_chunk_bytes bytes)
        (not stopped)
        r
        (fault_unless stopped error (deliver bytes (record r { calls = r.calls ++ before })))
unfolding fault_unless
round_IsRead before bytes true error r none none' =
    let (made, same, given, silent) = deliver_lem bytes (record r { calls = r.calls ++ before }) in
    record {
      quiet = before ++ deliveries bytes;
      delivered = ground (arith, bytes_of-append before (deliveries bytes), none, given);
      no_faults = ground (arith, faults_of-append before (deliveries bytes), none', silent);
      ending = inl (made ∙ append_assoc r.calls before (deliveries bytes), same, refl);
    }
round_IsRead before bytes false error r none none' =
    let (made, same, given, silent) = deliver_lem bytes (record r { calls = r.calls ++ before }) in
    record {
      quiet = before ++ deliveries bytes;
      delivered = ground (arith, bytes_of-append before (deliveries bytes), none, given);
      no_faults = ground (arith, faults_of-append before (deliveries bytes), none', silent);
      ending = inr (
        error,
        ap (λ (calls : List Call). calls ++ (on_fault error ∷ []))
              (made ∙ append_assoc r.calls before (deliveries bytes))
            ∙ append_assoc r.calls (before ++ deliveries bytes) (on_fault error ∷ []),
        refl,
      );
    }

-- The calls of a read that completed.
polled :
    (bytes : List ℕ) (r : Reader)
    → (quiet : List Call) × ((deliver bytes (call line_poll (call read_beat r))).calls
        ≡ r.calls ++ quiet)
      × ((deliver bytes (call line_poll (call read_beat r))).opened ≡ r.opened)
      × (bytes_of quiet ≡ take read_chunk_bytes bytes)
      × (faults_of quiet ≡ [])
polled bytes r =
    let (made, same, given, silent) = deliver_lem bytes (call line_poll (call read_beat r)) in
    (
      read_beat ∷ line_poll ∷ deliveries bytes,
      made
          ∙ append_assoc (r.calls ++ (read_beat ∷ [])) (line_poll ∷ []) (deliveries bytes)
          ∙ append_assoc r.calls (read_beat ∷ []) (line_poll ∷ deliveries bytes),
      same,
      given,
      silent,
    )

-- A round that goes on.
going_on :
    (x : Reading) (r : Reader)
    → goes_on x ≡ true
    → ((one_read x r).1 ≡ true)
      × ((quiet : List Call) × ((one_read x r).0.calls ≡ r.calls ++ quiet)
          × ((one_read x r).0.opened ≡ r.opened)
          × (bytes_of quiet ≡ moved x)
          × (faults_of quiet ≡ []))
unfolding one_read
going_on (complete bytes) r more = (refl, polled bytes r)
going_on (reaped_read bytes false) r more = (refl, polled bytes r)
going_on (reaped_read bytes true) r more = absurd (ground (arith, more))
going_on (read_fails error stopped) r more = absurd (ground (arith, more))
going_on never_released r more = absurd (ground (arith, more))
going_on stop_alone r more = absurd (ground (arith, more))
going_on (wait_failed error stopped) r more = absurd (ground (arith, more))
going_on (reap_failed bytes error stopped) r more = absurd (ground (arith, more))

-- A round that ends the loop.
ending_round :
    (x : Reading) (r : Reader)
    → goes_on x ≡ false
    → ((one_read x r).1 ≡ false) × IsRead (moved x) (device_failed x) r (one_read x r).0
unfolding one_read deliver
ending_round (complete bytes) r over = absurd (ground (arith, over))
ending_round (reaped_read bytes false) r over = absurd (ground (arith, over))
ending_round (reaped_read bytes true) r over =
    let (quiet, made, same, given, silent) = polled bytes r in
    (
      refl,
      record {
        quiet = quiet;
        delivered = given;
        no_faults = silent;
        ending = inl (made, same, refl);
      },
    )
ending_round (read_fails error stopped) r over =
    (refl, round_IsRead (read_beat ∷ []) [] stopped error r refl refl)
ending_round never_released r over = (
  refl,
  record {
    quiet = read_beat ∷ [];
    delivered = refl;
    no_faults = refl;
    ending = inr (
      error_operation_aborted,
      append_assoc r.calls (read_beat ∷ []) (on_fault error_operation_aborted ∷ []),
      refl,
    );
  },
)
ending_round stop_alone r over = (refl, round_IsRead (read_beat ∷ []) [] true 0 r refl refl)
ending_round (wait_failed error stopped) r over =
    (refl, round_IsRead (read_beat ∷ []) [] stopped error r refl refl)
ending_round (reap_failed bytes error stopped) r over =
    (refl, round_IsRead (read_beat ∷ []) bytes stopped error r refl refl)

then_IsRead :
    (quiet : List Call) (bytes : List ℕ) (failed : Bool) (r s t : Reader)
    → s.calls ≡ r.calls ++ quiet
    → s.opened ≡ r.opened
    → faults_of quiet ≡ []
    → IsRead bytes failed s t
    → IsRead (bytes_of quiet ++ bytes) failed r t
then_IsRead quiet bytes failed r s t made same silent later = record {
  quiet = quiet ++ later.quiet;
  delivered = ground (arith, bytes_of-append quiet later.quiet, later.delivered);
  no_faults = ground (arith, faults_of-append quiet later.quiet, silent, later.no_faults);
  ending = elim later.ending [
    | inl (calls, kept, clean) ↦
        inl
          (ground (arith, calls, made, append_assoc r.calls quiet later.quiet), kept ∙ same, clean)
    | inr (error, calls, cleared) ↦ inr (
      error,
      ground (
        arith,
        calls,
        made,
        append_assoc r.calls quiet (later.quiet ++ (on_fault error ∷ [])),
        append_assoc quiet later.quiet (on_fault error ∷ []),
      ),
      cleared,
    )
  ];
}

IsRead-same :
    (bytes bytes' : List ℕ) (failed failed' : Bool) (r t t' : Reader)
    → ◌≡◌ {A = List ℕ × Bool × Reader} (bytes', failed', t') (bytes, failed, t)
    → IsRead bytes failed r t
    → IsRead bytes' failed' r t'
IsRead-same bytes bytes' failed failed' r t t' same held =
    subst (λ (z : List ℕ × Bool × Reader). IsRead z.0 z.1 r z.2) (sym same) held

-- Every byte that the kernel moves while the thread runs is delivered, in order and once, the bytes of a
-- completion that failed included, and never after a fault. The thread reports at most one fault, as its
-- last call, and then open_ is cleared; if the device ended the session with no stop asked for, it does.
pub read_loop-IsRead :
    (readings : List Reading) (r : Reader)
    → IsRead (moved_in readings) (device_failed_in readings) r (read_loop readings r)
unfolding read_loop
read_loop-IsRead [] r = record {
  quiet = [];
  delivered = refl;
  no_faults = refl;
  ending = inl (sym (append-nil r.calls), refl, refl);
}
read_loop-IsRead (x ∷ xs) r = elim (Bool-cases (goes_on x)) [
  | inl e ↦
      let (more, (quiet, made, same, given, silent)) = going_on x r e in
      let s = (one_read x r).0 in
      IsRead-same (bytes_of quiet ++ moved_in xs) (moved_in (x ∷ xs)) (device_failed_in xs)
        (device_failed_in (x ∷ xs)) r (read_loop xs s) (read_loop (x ∷ xs) r)
        (ground (arith, e, more, given))
        (then_IsRead quiet (moved_in xs) (device_failed_in xs) r s (read_loop xs s) made same silent
          (read_loop-IsRead xs s))
  | inr e ↦
      let (over, ended) = ending_round x r e in
      IsRead-same (moved x) (moved_in (x ∷ xs)) (device_failed x) (device_failed_in (x ∷ xs)) r
        (one_read x r).0 (read_loop (x ∷ xs) r) (ground (arith, e, over, append-nil (moved x)))
        ended
]
