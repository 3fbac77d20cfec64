-- ===== src/Par2/Index/Sorted.antt =====
-- The protected files are sorted after the index file is read.
use par2engine.Base.{
  ℕ, zero, suc, List, [], ◌∷◌, map, true, false, Bool-cases, inl, inr, Option, none, some, ◌≡◌,
  refl, sym, ap, ◌∙◌, arith, length, or_false, and_true, if_elim,
}
use par2engine.Par2.FileId.{less_loop, file_id_less, is_sorted}
use par2engine.Par2.Names.{eq_bytes}
use par2engine.Par2.FileDesc.{FileDescPacket}
use par2engine.Par2.FileDesc.Laws.{IsFileDescPacket}
use par2engine.Par2.Decoder.{Decoder, LoadError, handle_packet, stream_packets, has_file}
use par2engine.Par2.Decoder.Valid.{IsDecoder, AllFiles, eq_bytes_sym, stream_packets-IsDecoder}
use par2engine.Par2.Index.{insert_file, sort_files, after_read, load_index_file}

less_loop-asymmetric : (n : ℕ) (a b : List ℕ) → less_loop n a b ≡ true → less_loop n b a ≡ false
unfolding less_loop
less_loop-asymmetric zero a b h = refl
less_loop-asymmetric (suc n) a b h = ground (arith, less_loop-asymmetric n a b)

file_id_less-asymmetric :
    (a b : List ℕ) → length a ≡ length b → file_id_less a b ≡ true → file_id_less b a ≡ false
unfolding file_id_less
file_id_less-asymmetric a b e h =
    ap (λ (n : ℕ). less_loop n b a) (sym e) ∙ less_loop-asymmetric (length a) a b h

insert-has_file :
    (p : FileDescPacket) (files : List FileDescPacket) (id : List ℕ)
    → eq_bytes p.file_id id ≡ false
    → has_file files id ≡ false
    → has_file (insert_file p files) id ≡ false
unfolding insert_file has_file
insert-has_file p [] id h k = ground arith
insert-has_file p (f ∷ files) id h k = ground (arith, insert-has_file p files id)

insert-AllFiles :
    (p : FileDescPacket) (files : List FileDescPacket)
    → AllFiles files
    → IsFileDescPacket p
    → has_file files p.file_id ≡ false
    → AllFiles (insert_file p files)
unfolding insert_file has_file
insert-AllFiles p [] h valid new = (valid, refl, tt)
insert-AllFiles p (f ∷ files) h valid new =
    let (other, rest) = or_false (eq_bytes f.file_id p.file_id) (has_file files p.file_id) new in
    elim (Bool-cases (file_id_less f.file_id p.file_id)) [
      | inl later ↦ rw later (
        h.0,
        insert-has_file p files f.file_id (eq_bytes_sym p.file_id f.file_id ∙ other) h.1,
        insert-AllFiles p files h.2 valid rest,
      )
      | inr first ↦ rw first (valid, new, h)
    ]

sort-has_file :
    (files : List FileDescPacket) (id : List ℕ)
    → has_file files id ≡ false
    → has_file (sort_files files) id ≡ false
unfolding sort_files has_file
sort-has_file [] id h = h
sort-has_file (f ∷ files) id h =
    let (other, rest) = or_false (eq_bytes f.file_id id) (has_file files id) h in
    insert-has_file f (sort_files files) id other (sort-has_file files id rest)

sort-AllFiles : (files : List FileDescPacket) → AllFiles files → AllFiles (sort_files files)
unfolding sort_files
sort-AllFiles [] h = tt
sort-AllFiles (f ∷ files) h =
    insert-AllFiles f (sort_files files) (sort-AllFiles files h.2) h.0
      (sort-has_file files f.file_id h.1)

abbrev pub ids : List FileDescPacket → List (List ℕ)
ids files = map (λ (f : FileDescPacket). f.file_id) files

-- A file at the front of a sorted list that is not before it.
sorted_cons :
    (x y : List ℕ) (rest : List (List ℕ))
    → file_id_less y x ≡ false
    → is_sorted (y ∷ rest) ≡ true
    → is_sorted (x ∷ y ∷ rest) ≡ true
unfolding is_sorted
sorted_cons x y rest h k = ground arith

sorted_head :
    (x y : List ℕ) (rest : List (List ℕ))
    → is_sorted (x ∷ y ∷ rest) ≡ true
    → file_id_less y x ≡ false
unfolding is_sorted
sorted_head x y rest h = ground arith

sorted_tail :
    (x : List ℕ) (rest : List (List ℕ)) → is_sorted (x ∷ rest) ≡ true → is_sorted rest ≡ true
unfolding is_sorted
sorted_tail x [] h = refl
sorted_tail x (y ∷ rest) h = (and_true _ _ h).1

insert_behind :
    (f p : FileDescPacket) (files : List FileDescPacket)
    → file_id_less p.file_id f.file_id ≡ false
    → is_sorted (f.file_id ∷ ids files) ≡ true
    → is_sorted (ids (insert_file p files)) ≡ true
    → is_sorted (f.file_id ∷ ids (insert_file p files)) ≡ true
unfolding insert_file
insert_behind f p [] h k l = sorted_cons f.file_id p.file_id [] h l
insert_behind f p (g ∷ files) h k l =
    if_elim
      (λ (t : List FileDescPacket). is_sorted (ids t) ≡ true → is_sorted (f.file_id ∷ ids t) ≡ true)
      (file_id_less g.file_id p.file_id)
      (λ _ m. sorted_cons f.file_id g.file_id _ (sorted_head f.file_id g.file_id (ids files) k) m)
      (λ _ m. sorted_cons f.file_id p.file_id _ h m) l

insert-is_sorted :
    (p : FileDescPacket) (files : List FileDescPacket)
    → IsFileDescPacket p
    → AllFiles files
    → is_sorted (ids files) ≡ true
    → is_sorted (ids (insert_file p files)) ≡ true
unfolding insert_file
insert-is_sorted p [] valid all h = unfold is_sorted in refl
insert-is_sorted p (f ∷ files) valid all h = elim (Bool-cases (file_id_less f.file_id p.file_id)) [
  | inl later ↦ rw later (
      insert_behind f p files
        (file_id_less-asymmetric f.file_id p.file_id (all.0.id_size ∙ sym valid.id_size) later) h
        (insert-is_sorted p files valid all.2 (sorted_tail f.file_id (ids files) h)))
  | inr first ↦ rw first (sorted_cons p.file_id f.file_id (ids files) first h)
]

sort-is_sorted :
    (files : List FileDescPacket) → AllFiles files → is_sorted (ids (sort_files files)) ≡ true
unfolding sort_files
sort-is_sorted [] h = unfold is_sorted in refl
sort-is_sorted (f ∷ files) h =
    insert-is_sorted f (sort_files files) h.0 (sort-AllFiles files h.2) (sort-is_sorted files h.2)

after_read-is_sorted :
    (d : Decoder) (e : Option LoadError)
    → IsDecoder d
    → IsDecoder (after_read d e).decoder
      × ((after_read d e).error ≡ none
          → is_sorted (ids (after_read d e).decoder.protected_files) ≡ true)
unfolding after_read
after_read-is_sorted d none valid = (
  record {
    size_aligned = valid.size_aligned;
    size_fits = valid.size_fits;
    files = sort-AllFiles d.protected_files valid.files;
    checksums = valid.checksums;
    shards = valid.shards;
  },
  λ _. sort-is_sorted d.protected_files valid.files,
)
after_read-is_sorted d (some e) valid = (valid, λ h. absurd (ground arith))

-- When `loadIndexFile` reads a file into a well-formed decoder without an error, the decoder is
-- well formed after it, no file ID twice and every name safe, and its protected files are in the
-- order of `FileIDLess`.
pub load_index_file-is_sorted :
    (md5 : List ℕ → List ℕ) (filename : List ℕ) (d : Decoder) (file : List ℕ)
    → IsDecoder d
    → (load_index_file md5 filename d file).error ≡ none
    → IsDecoder (load_index_file md5 filename d file).decoder
      × (is_sorted (ids (load_index_file md5 filename d file).decoder.protected_files) ≡ true)
unfolding load_index_file
load_index_file-is_sorted md5 filename d file valid run =
    let o = stream_packets md5 (handle_packet md5 filename) d file in
    let (kept, sorted) =
      after_read-is_sorted o.decoder o.error (stream_packets-IsDecoder md5 filename d file valid) in
    (kept, sorted run)
