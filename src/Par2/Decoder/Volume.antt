-- ===== src/Par2/Decoder/Volume.antt =====
-- Reading a recovery volume only adds shards.
use par2engine.Base.{ℕ, List, [], ◌∷◌, ◌++◌, ◌≡◌, refl, ap, if_elim, Result, ok, err}
use par2engine.Par2.Names.{eq_bytes}
use par2engine.Par2.Packet.{PacketError, RecoveryPacket, parse_recovery_packet}
use par2engine.Par2.FileDesc.{Header}
use par2engine.Par2.Decoder.{
  Decoder, Outcome, finished, failed, bad_packet, recovery_packet_type, has_exponent, add_shard,
  handle_recovery, handle_volume_packet, load_single_volume_file,
}
use par2engine.Par2.Decoder.Stream.{stream_packets_keeps}
use par2engine.Par2.Decoder.Valid.{IsDecoder, handle_recovery-IsDecoder, set_id-IsDecoder}

-- The later decoder has the earlier one's shards, behind those that were added, and all else that the
-- index file gave it.
pub record Extends (d e : Decoder) : Type 0 where
  pub size : e.slice_byte_count ≡ d.slice_byte_count
  pub files : e.protected_files ≡ d.protected_files
  pub checksums : e.file_checksums ≡ d.file_checksums
  pub shards : (new : List RecoveryPacket) × (e.parity_shards ≡ new ++ d.parity_shards)

abbrev Grown : Decoder → Decoder → Type 0
Grown d e = Extends d e × IsDecoder e

add_shard-Extends :
    (d e : Decoder) (p : RecoveryPacket) (filename : List ℕ)
    → Extends d e
    → Extends d (add_shard e p filename)
unfolding add_shard
add_shard-Extends d e p filename h =
    if_elim (Extends d) (has_exponent e.parity_shards p.exponent) (λ _. h)
      (λ _. record {
        size = h.size;
        files = h.files;
        checksums = h.checksums;
        shards = (p ∷ h.shards.0, ap (◌∷◌ p) h.shards.1);
      })

handle_recovery-Extends :
    (d e : Decoder) (body filename : List ℕ)
    → Extends d e
    → Extends d (handle_recovery e body filename).decoder
unfolding handle_recovery
handle_recovery-Extends d e body filename h =
    elim (parse_recovery_packet body)
      as (λ (r : Result PacketError RecoveryPacket).
        Extends d
          (elim r as (λ _. Outcome) [
            | err x ↦ failed e (bad_packet x)
            | ok p ↦ finished (add_shard e p filename)
          ]).decoder) [ err x ↦ h | ok p ↦ add_shard-Extends d e p filename h ]

-- Reading a recovery volume into a well-formed decoder changes neither the slice size, the
-- protected files nor the checksums, keeps each shard that was there behind those that it adds, and
-- leaves a well-formed decoder, with or without an error.
pub load_single_volume_file-Extends :
    (md5 : List ℕ → List ℕ) (filename : List ℕ) (d : Decoder) (file : List ℕ)
    → IsDecoder d
    → Extends d (load_single_volume_file md5 filename d file).decoder
      × IsDecoder (load_single_volume_file md5 filename d file).decoder
unfolding load_single_volume_file
load_single_volume_file-Extends md5 filename d file valid =
    stream_packets_keeps (Grown d) md5 (handle_volume_packet md5 filename)
      (λ e h body grown. handled e h body grown)
      (λ e id grown. (
        record {
          size = grown.0.size;
          files = grown.0.files;
          checksums = grown.0.checksums;
          shards = grown.0.shards;
        },
        set_id-IsDecoder e id grown.1,
      ))
      d file (record { size = refl; files = refl; checksums = refl; shards = ([], refl) }, valid)
  where
    handled :
        (e : Decoder) (h : Header) (body : List ℕ)
        → Grown d e
        → Grown d (handle_volume_packet md5 filename e h body).decoder
    handled e h body grown =
        unfold handle_volume_packet in
        if_elim (λ (o : Outcome). Grown d o.decoder) (eq_bytes h.packet_type recovery_packet_type)
          (λ _. (
            handle_recovery-Extends d e body filename grown.0,
            handle_recovery-IsDecoder e grown.1 body filename,
          ))
          (λ _. grown)
