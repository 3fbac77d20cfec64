-- ===== src/Par2/Index.antt =====
-- par2/decoder.go: `loadIndexFile`.
pub mod Sorted
use par2engine.Base.{ℕ, if◌then◌else◌, List, [], ◌∷◌, Option, none, some}
use par2engine.Par2.FileId.{file_id_less}
use par2engine.Par2.FileDesc.{FileDescPacket}
use par2engine.Par2.Decoder.{
  Decoder, Outcome, LoadError, finished, failed, handle_packet, stream_packets,
}

-- `slices.SortFunc` with the order on file IDs. It may put files of one ID in any order; no two files
-- of the decoder have one.
unfoldable pub insert_file : FileDescPacket → List FileDescPacket → List FileDescPacket
insert_file p [] = p ∷ []
insert_file p (f ∷ files) =
    let rest = insert_file p files in
    if file_id_less f.file_id p.file_id then f ∷ rest else p ∷ f ∷ files

unfoldable pub sort_files : List FileDescPacket → List FileDescPacket
sort_files [] = []
sort_files (f ∷ files) = insert_file f (sort_files files)

-- `loadIndexFile`; an error of the reading is returned before the sort.
unfoldable pub after_read : Decoder → Option LoadError → Outcome
after_read d none = finished (record d { protected_files = sort_files d.protected_files })
after_read d (some e) = failed d e

unfoldable pub load_index_file : (List ℕ → List ℕ) → List ℕ → Decoder → List ℕ → Outcome
load_index_file md5 filename d file =
    let o = stream_packets md5 (handle_packet md5 filename) d file in after_read o.decoder o.error
