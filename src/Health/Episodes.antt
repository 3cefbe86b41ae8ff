-- ===== src/Health/Episodes.antt =====
-- The episodes that a run of checks reports.
use xcom_lua.Prelude.{ℕ, ◌+◌, ◌%◌, ◌≡◌, refl, Bool, true, false, List, [], ◌∷◌, arith}
use xcom_lua.Prelude.Word.{u32_mod}
use xcom_lua.Health.{
  LivenessState, LivenessResult, LivenessEdge, no_edge, fault, recovery, liveness_evaluate,
}

-- One call of report_thread_health: the stamp that it copies in, and the arguments of the check.
pub record Check : Type 0 where
  pub beat_ms : ℕ
  pub now_ms : ℕ
  pub timeout_ms : ℕ
  pub running : Bool
  pub parked : Bool

unfoldable pub observe : LivenessState → Check → LivenessState × LivenessResult
observe s c =
    liveness_evaluate (record s { last_beat_ms = c.beat_ms }) c.now_ms c.timeout_ms c.running
      c.parked

-- The edges that a sequence of checks reports, and the state that it leaves.
unfoldable pub observe_all : LivenessState → List Check → LivenessState × List LivenessEdge
observe_all s [] = (s, [])
observe_all s (c ∷ cs) =
    let (s', r) = observe s c in let (t, es) = observe_all s' cs in (t, r.edge ∷ es)

-- Fault and recovery edges take turns; the flag says whether an episode is open.
abbrev pub Alternates : Bool → List LivenessEdge → Bool → Type 0
Alternates open_before [] open_after = open_before ≡ open_after
Alternates open_before (no_edge ∷ es) open_after = Alternates open_before es open_after
Alternates open_before (fault ∷ es) open_after =
    (open_before ≡ false) × Alternates true es open_after
Alternates open_before (recovery ∷ es) open_after =
    (open_before ≡ true) × Alternates false es open_after

abbrev pub fault_count : List LivenessEdge → ℕ
fault_count [] = 0
fault_count (no_edge ∷ es) = fault_count es
fault_count (fault ∷ es) = fault_count es + 1
fault_count (recovery ∷ es) = fault_count es

observe-Alternates :
    (s : LivenessState) (c : Check) (es : List LivenessEdge) (b : Bool)
    → Alternates (observe s c).0.faulted es b
    → Alternates s.faulted ((observe s c).1.edge ∷ es) b
unfolding observe liveness_evaluate
observe-Alternates s c es b h = ground arith

observe_all_count :
    (s : LivenessState) (c : Check) (es : List LivenessEdge) (n : ℕ)
    → n % u32_mod ≡ ((observe s c).0.episodes + fault_count es) % u32_mod
    → n % u32_mod ≡ (s.episodes + fault_count ((observe s c).1.edge ∷ es)) % u32_mod
unfolding observe liveness_evaluate
observe_all_count s c es n h = ground arith

-- The fault and recovery edges of any sequence of checks take turns, a fault first unless an
-- episode was open before; the flag at the end says whether the last fault is still open;
-- and the episode counter has grown by the number of fault edges, as a uint32_t.
pub observe_all_episodes :
    (s : LivenessState) (cs : List Check)
    → Alternates s.faulted (observe_all s cs).1 (observe_all s cs).0.faulted
      × ((observe_all s cs).0.episodes % u32_mod
          ≡ (s.episodes + fault_count (observe_all s cs).1) % u32_mod)
unfolding observe_all
observe_all_episodes s [] = (refl, omega arith)
observe_all_episodes s (c ∷ cs) =
    let s' : LivenessState = (observe s c).0 in
    let rest = observe_all_episodes s' cs in
    (
      observe-Alternates s c (observe_all s' cs).1 (observe_all s' cs).0.faulted rest.0,
      observe_all_count s c (observe_all s' cs).1 (observe_all s' cs).0.episodes rest.1,
    )
