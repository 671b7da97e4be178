-- ===== src/RunResult/Judged.antt =====
-- What a verdict means.
use my_iperf.Prelude.{
  ℕ, ◌*◌, ◌<◌, ◌≡◌, ◌↔◌, refl, sym, ap, ◌∙◌, Bool, true, false, not, ◌&&◌, Text, is_empty, arith,
  ltb, if◌then◌else◌,
}
use my_iperf.Prelude.Int.{ℤ, pos, negsuc, ltb_ℤ, eqb_ℤ, ◌*ℤ◌, ◌<ℤ◌}
use my_iperf.Config.{Config}
use my_iperf.Stats.{TestStats}
use my_iperf.RunResult.{
  State, is_finished, combine_reasons, add_reason, validate_receiver_stats, build_current_result,
  overall_reason, Snapshot, TestRunResult,
}

-- The receiver has seen exactly the packets and bytes that the configuration announces, if it
-- announces any, and no error.
pub record IsClean {R : Type 0} (s : TestStats R) (config : Config) : Type 0 where
  pub packets : pos 0 <ℤ config.num_packets → pos s.total_packets_received ≡ config.num_packets
  pub bytes :
      pos 0 <ℤ config.num_packets
      → pos s.total_bytes_received ≡ config.packet_size *ℤ config.num_packets
  pub checksums : s.failed_checksum_count ≡ 0
  pub sequence : s.sequence_error_count ≡ 0
  pub content : s.content_mismatch_count ≡ 0

add_reason-empty :
    (test : Bool) (more reason : Text)
    → is_empty more ≡ false
    → is_empty (add_reason test more reason) ≡ not test && is_empty reason
unfolding combine_reasons
add_reason-empty test more reason h = ground arith

eqb_ℤ_iff : (a b : ℤ) → (eqb_ℤ a b ≡ true) ↔ (a ≡ b)
eqb_ℤ_iff a b = (λ h. ground arith, λ h. ground arith)

pos_mul : (m n : ℕ) → 0 < m → 0 < n → 0 < m * n
pos_mul m n h k = grind arith

*ℤ-positive : (a b : ℤ) → pos 0 <ℤ a → pos 0 <ℤ b → pos 0 <ℤ a *ℤ b
unfolding ◌*ℤ◌
*ℤ-positive (pos m) (pos n) h k = ground (arith, pos_mul m n (omega arith) (omega arith))
*ℤ-positive (pos m) (negsuc n) h k = absurd (omega arith)
*ℤ-positive (negsuc m) b h k = absurd (omega arith)

module _ {R : Type 0} (s : TestStats R) (config : Config) where
  abbrev expected_bytes : ℤ
  expected_bytes =
      if ltb_ℤ (pos 0) config.num_packets then config.packet_size *ℤ config.num_packets else pos 0

  abbrev wrong_packets : Bool
  wrong_packets =
      ltb_ℤ (pos 0) config.num_packets
      && not (eqb_ℤ (pos s.total_packets_received) config.num_packets)

  abbrev wrong_bytes : Bool
  wrong_bytes =
      ltb_ℤ (pos 0) expected_bytes && not (eqb_ℤ (pos s.total_bytes_received) expected_bytes)

  validate-empty :
      is_empty (validate_receiver_stats s config)
      ≡ not (ltb 0 s.content_mismatch_count)
        && (not (ltb 0 s.sequence_error_count)
            && (not (ltb 0 s.failed_checksum_count)
                && (not wrong_bytes && (not wrong_packets && true))))
  unfolding validate_receiver_stats
  validate-empty =
      add_reason-empty (ltb 0 s.content_mismatch_count) _ _ refl
      ∙ ap (◌&&◌ (not (ltb 0 s.content_mismatch_count))) (
          add_reason-empty (ltb 0 s.sequence_error_count) _ _ refl
          ∙ ap (◌&&◌ (not (ltb 0 s.sequence_error_count))) (
              add_reason-empty (ltb 0 s.failed_checksum_count) _ _ refl
              ∙ ap (◌&&◌ (not (ltb 0 s.failed_checksum_count))) (
                  add_reason-empty wrong_bytes _ _ refl
                  ∙ ap (◌&&◌ (not wrong_bytes)) (add_reason-empty wrong_packets _ _ refl))))

  announced : pos 0 <ℤ config.num_packets → ltb_ℤ (pos 0) config.num_packets ≡ true
  announced h = ground arith

  packets_iff :
      (wrong_packets ≡ false)
      ↔ (pos 0 <ℤ config.num_packets → pos s.total_packets_received ≡ config.num_packets)
  packets_iff = (
    λ h n. ground (arith, eqb_ℤ_iff (pos s.total_packets_received) config.num_packets, announced n),
    λ h. ground (arith, eqb_ℤ_iff (pos s.total_packets_received) config.num_packets),
  )

  bytes_iff :
      pos 0 <ℤ config.packet_size
      → (wrong_bytes ≡ false) ↔ (
          pos 0 <ℤ config.num_packets
          → pos s.total_bytes_received ≡ config.packet_size *ℤ config.num_packets)
  bytes_iff size = (
    λ h n. ground (
      arith,
      eqb_ℤ_iff (pos s.total_bytes_received) (config.packet_size *ℤ config.num_packets),
      announced n,
      *ℤ-positive config.packet_size config.num_packets size n,
    ),
    λ h.
        ground (
          arith,
          eqb_ℤ_iff (pos s.total_bytes_received) (config.packet_size *ℤ config.num_packets),
        ),
  )

  -- For a configuration with a positive packet size: a phase has no failure reason exactly if its
  -- receiver has the announced packets and bytes (where a number is announced) and no error.
  pub validate-iff-IsClean :
      pos 0 <ℤ config.packet_size
      → (is_empty (validate_receiver_stats s config) ≡ true) ↔ IsClean s config
  validate-iff-IsClean size = (
    λ h.
        let e = sym validate-empty ∙ h in
        record {
          packets = packets_iff.0 (ground arith);
          bytes = (bytes_iff size).0 (ground arith);
          checksums = ground arith;
          sequence = ground arith;
          content = ground arith;
        },
    λ c.
        validate-empty
        ∙ ground (
          arith,
          c.checksums,
          c.sequence,
          c.content,
          packets_iff.1 c.packets,
          (bytes_iff size).1 c.bytes,
        ),
  )

is_finished_iff : (s : State) → (is_finished s ≡ true) ↔ (s ≡ State.finished)
is_finished_iff State.finished = (λ h. refl, λ h. refl)
is_finished_iff s = (λ h. cc, λ h. cc)

module _ {R : Type 0} (now reason : Text) (c : Snapshot R)
    (size : pos 0 <ℤ c.config.packet_size) where
  abbrev result : TestRunResult R
  result = build_current_result now reason c

  -- With a positive packet size, a run is reported as a success exactly if its final state is FINISHED
  -- and the receiver of each phase (the server in phase 1, the client in phase 2) has a clean record.
  pub success-iff-IsClean :
      (result.success ≡ true)
      ↔ (c.state ≡ State.finished)
        × IsClean c.server_stats_phase1 c.config
        × IsClean c.client_stats_phase2 c.config
  unfolding build_current_result
  success-iff-IsClean =
      let phase1 = validate-iff-IsClean c.server_stats_phase1 c.config size in
      let phase2 = validate-iff-IsClean c.client_stats_phase2 c.config size in
      (
        λ h. (
          (is_finished_iff c.state).0 (ground arith),
          phase1.0 (ground arith),
          phase2.0 (ground arith),
        ),
        λ h. rw ((is_finished_iff c.state).1 h.0, phase1.1 h.1, phase2.1 h.2),
      )

-- The reported failure reason is empty exactly if the run is reported as a success and the reason
-- that is passed in (of an exception or a stop) is empty: no failure goes unexplained.
pub failure_reason-empty :
    {R : Type 0} (now reason : Text) (c : Snapshot R)
    → is_empty (build_current_result now reason c).failure_reason
      ≡ (build_current_result now reason c).success && is_empty reason
unfolding build_current_result overall_reason
failure_reason-empty now reason c =
    let r1 = validate_receiver_stats c.server_stats_phase1 c.config in
    let r2 = validate_receiver_stats c.client_stats_phase2 c.config in
    add_reason-empty (not (is_empty r2)) _ _ refl
    ∙ ap (◌&&◌ (not (not (is_empty r2)))) (
        add_reason-empty (not (is_empty r1)) _ _ refl
        ∙ ap (◌&&◌ (not (not (is_empty r1))))
            (add_reason-empty (not (is_finished c.state)) _ _ refl))
    ∙ ground arith
