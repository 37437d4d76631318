-- ===== src/Relay/Limit.antt =====
-- relay.rs: a whole round of `forward_loop`, its rate limit included.
use p2pfile_transfer.Common.{
  ℕ, ◌<◌, ◌≡◌, ◌⊎◌, ◌-◌, refl, inl, inr, true, List, some, none, length, ltb, arith, Bool-cases,
}
use p2pfile_transfer.Relay.{Addr, Instant, F64, ForwardLoop, topped_up, routed, forward_step}
use p2pfile_transfer.Relay.Traffic.{Reaches, Paired, route_delivers}

module _ (f : F64) (bandwidth_cap_bps : ℕ) where
  -- There is a cap, and the datagram is longer than the bucket has tokens when it arrives.
  abbrev pub Over : List ℕ → Instant → ForwardLoop f bandwidth_cap_bps → Type 0
  Over packet arrived l =
      (0 < bandwidth_cap_bps)
      × (f.greater (f.of_ℕ (length packet)) (
            f.minimum
              (f.plus l.bucket_tokens
                (f.times (f.as_secs (arrived - l.bucket_last)) (f.of_ℕ bandwidth_cap_bps)))
              (f.half (f.of_ℕ bandwidth_cap_bps)))
          ≡ true)

  -- A datagram between the two joined peers of a session of a reachable relay is sent on to the other,
  -- unchanged, also one that happens to look like a hello, unless a bandwidth cap is set and the
  -- bucket, topped up to at most half a second's worth, has fewer tokens than it has bytes; then it
  -- is dropped, and no session has changed.
  pub forward_step-delivers :
      (packet : List ℕ) (src dest : Addr) (arrived now : Instant)
      (l : ForwardLoop f bandwidth_cap_bps)
      → Reaches l.relay
      → Paired l.relay src dest
      → let (sending, l') = forward_step f bandwidth_cap_bps packet src arrived now l in
        (Over packet arrived l × (sending ≡ none) × (l'.relay ≡ l.relay))
        ⊎ (¬ Over packet arrived l × (sending ≡ some (dest, packet)))
  unfolding forward_step topped_up routed
  forward_step-delivers packet src dest arrived now l r p =
      elim (Bool-cases (ltb 0 bandwidth_cap_bps)) [
        | inr off ↦ rw off (
            inr (
              λ over. absurd (ground (arith, off, over.0)),
              route_delivers l.relay packet src dest now r p,
            ))
        | inl on ↦
            rw on
              (elim (Bool-cases
                (f.greater (f.of_ℕ (length packet)) (topped_up f bandwidth_cap_bps arrived l))) [
                  | inl large ↦ rw large (inl ((ground (arith, on), refl), refl, refl))
                  | inr fits ↦ rw fits (
                      inr (
                        λ over. (let never = over.1 in cc),
                        route_delivers l.relay packet src dest now r p,
                      ))
                ])
      ]
