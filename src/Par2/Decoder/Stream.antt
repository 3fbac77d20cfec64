-- ===== src/Par2/Decoder/Stream.antt =====
-- The loop over the packets of a file ends, and what each packet keeps, the file keeps.
use par2engine.Base.{
  ℕ, zero, suc, ◌+◌, ◌-◌, ◌<◌, ltb, not, ◌||◌, List, length, take, drop, replicate, Option, none,
  some, ok, err, Result, ◌≡◌, refl, ap, ◌∙◌, arith, length-drop, if_elim,
}
use par2engine.Par2.Names.{eq_bytes}
use par2engine.Par2.Packet.{PacketError, end_of_file, max_int}
use par2engine.Par2.FileDesc.{Header, read_header, compute_packet_hash}
use par2engine.Par2.FileDesc.Laws.{accepted_header}
use par2engine.Par2.Decoder.{
  Decoder, Handler, Round, stop, next, Outcome, take_body, take_packet, after_handle, read_round,
  stream_loop, stream_packets, LoadError, after_header, go_on,
}

module _ (P : Decoder → Type 0) where
  -- What a round leaves, where it began with `n` bytes.
  abbrev pub Goes : ℕ → Round → Type 0
  Goes n (stop o) = P o.decoder
  Goes n (next d rest) = P d × (length rest < n)

  module _ (md5 : List ℕ → List ℕ) (handle : Handler)
      (keeps : (d : Decoder) (h : Header) (body : List ℕ) → P d → P (handle d h body).decoder)
      (keeps_id : (d : Decoder) (id : List ℕ) → P d → P (record d { recovery_set_id = id })) where
    after_handle-Goes :
        (n : ℕ) (o : Outcome) (rest : List ℕ)
        → P o.decoder
        → length rest < n
        → Goes n (after_handle md5 handle o rest)
    unfolding after_handle
    after_handle-Goes n o rest p l =
        elim o.error
          as (λ (e : Option LoadError).
            Goes n (elim e [ none ↦ next o.decoder rest | some e ↦ stop o ])) [
              | none ↦ (p, l)
              | some e ↦ p
            ]

    take_packet-Goes :
        (n : ℕ) (d : Decoder) (h : Header) (body rest : List ℕ)
        → P d
        → length rest < n
        → Goes n (take_packet md5 handle d h body rest)
    unfolding take_packet
    take_packet-Goes n d h body rest p l =
        if_elim (Goes n)
          (not (eq_bytes (compute_packet_hash md5 h.recovery_set_id h.packet_type body) h.hash))
          (λ _. p)
          (λ _.
            if_elim (Goes n) (eq_bytes d.recovery_set_id (replicate 16 0))
              (λ _. after_handle-Goes n _ rest (keeps _ h body (keeps_id d h.recovery_set_id p)) l)
              (λ _.
                if_elim (Goes n) (not (eq_bytes h.recovery_set_id d.recovery_set_id)) (λ _. (p, l))
                  (λ _. after_handle-Goes n _ rest (keeps d h body p) l)))

    take_body-Goes :
        (n : ℕ) (d : Decoder) (h : Header) (file : List ℕ)
        → P d
        → length file < n
        → Goes n (take_body md5 handle d h file)
    unfolding take_body
    take_body-Goes n d h file p l =
        let size = h.packet_length - 64 in
        if_elim (Goes n) (ltb max_int size || ltb d.max_packet_size size) (λ _. p)
          (λ _.
            if_elim (Goes n) (ltb (length file) size) (λ _. p)
              (λ _.
                take_packet-Goes n d h (take size file) (drop size file) p
                  (omega (arith, length-drop size file))))

    after_header-Goes :
        (d : Decoder) (file : List ℕ) (r : Result PacketError Header)
        → read_header file ≡ r
        → P d
        → Goes (length file) (after_header md5 handle d file r)
    unfolding after_header
    after_header-Goes d file (err end_of_file) run p = p
    after_header-Goes d file (err e) run p = p
    after_header-Goes d file (ok h) run p =
        take_body-Goes (length file) d h (drop 64 file) p
          (omega (arith, length-drop 64 file, (accepted_header file h run).0))

    pub read_round-Goes :
        (d : Decoder) (file : List ℕ) → P d → Goes (length file) (read_round md5 handle d file)
    unfolding read_round
    read_round-Goes d file p = after_header-Goes d file (read_header file) refl p

    go_on_keeps :
        (again : Decoder → List ℕ → Outcome) (n : ℕ)
        → ((d : Decoder) (rest : List ℕ) → P d → P (again d rest).decoder)
        → (r : Round) → Goes n r
        → P (go_on again r).decoder
    unfolding go_on
    go_on_keeps again n keeps (stop o) g = g
    go_on_keeps again n keeps (next d rest) g = keeps d rest g.0

    stream_loop_keeps :
        (fuel : ℕ) (d : Decoder) (file : List ℕ)
        → P d
        → P (stream_loop md5 handle fuel d file).decoder
    unfolding stream_loop
    stream_loop_keeps zero d file p = p
    stream_loop_keeps (suc fuel) d file p =
        go_on_keeps (λ d' rest. stream_loop md5 handle fuel d' rest) (length file)
          (λ d' rest q. stream_loop_keeps fuel d' rest q) (read_round md5 handle d file)
          (read_round-Goes d file p)

    pub stream_packets_keeps :
        (d : Decoder) (file : List ℕ) → P d → P (stream_packets md5 handle d file).decoder
    unfolding stream_packets
    stream_packets_keeps d file p =
        if_elim (λ (o : Outcome). P o.decoder) (ltb d.max_file_size (length file)) (λ _. p)
          (λ _. stream_loop_keeps (suc (length file)) d file p)

module _ (md5 : List ℕ → List ℕ) (handle : Handler) where
  go_on-same :
      (f g : Decoder → List ℕ → Outcome) (n : ℕ)
      → ((d : Decoder) (rest : List ℕ) → length rest < n → f d rest ≡ g d rest)
      → (r : Round) → Goes (λ _. Unit) n r
      → go_on f r ≡ go_on g r
  unfolding go_on
  go_on-same f g n same (stop o) h = refl
  go_on-same f g n same (next d rest) h = same d rest h.1

  -- The loop of `streamPAR2Packets` ends by itself on every file, for any handler: with more fuel
  -- than the file has bytes, further fuel changes nothing.
  pub stream_loop_enough :
      (fuel more : ℕ) (d : Decoder) (file : List ℕ)
      → length file < fuel
      → stream_loop md5 handle (fuel + more) d file ≡ stream_loop md5 handle fuel d file
  unfolding stream_loop
  stream_loop_enough zero more d file h = absurd (omega arith)
  stream_loop_enough (suc fuel) more d file h =
      let e : suc fuel + more ≡ suc (fuel + more) = omega arith in
      ap (λ (n : ℕ). stream_loop md5 handle n d file) e
      ∙ go_on-same (λ d' rest. stream_loop md5 handle (fuel + more) d' rest)
          (λ d' rest. stream_loop md5 handle fuel d' rest) (length file)
          (λ d' rest l. stream_loop_enough fuel more d' rest (omega arith))
          (read_round md5 handle d file)
          (read_round-Goes (λ _. Unit) md5 handle (λ _ _ _ _. tt) (λ _ _ _. tt) d file tt)
