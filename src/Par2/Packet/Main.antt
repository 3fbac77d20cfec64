-- ===== src/Par2/Packet/Main.antt =====
-- The main packet: what is accepted is exactly what the specification's layout writes.
use mathlib.Core.List.{flatten, append_assoc}
use par2engine.Base.{
  ℕ, ◌*◌, ◌/◌, ◌%◌, ◌^◌, ◌≤◌, ◌<◌, ◌≡◌, refl, sym, subst, ap, ap₂, ◌∙◌, arith, List, ◌++◌, take,
  drop, length, ltb, ◌==◌, true, false, not, ◌||◌, ok, length-append, length-take, length-drop,
  take-append-drop, drop-drop,
}
use par2engine.Par2.Bytes.{IsBytes, le_value, le_bytes, chunks}
use par2engine.Par2.Bytes.Laws.{
  length-le_bytes, le_value-le_bytes, take-append_length, drop-append_length, AllSized,
  chunks-flatten, length-flatten, flatten-chunks, length-chunks, le_bytes-le_value, IsBytes-take,
  IsBytes-drop, chunks-AllSized,
}
use par2engine.Par2.FileId.{is_sorted}
use par2engine.Par2.Packet.{MainPacket, parse_main_packet, max_int}

-- The layout of the specification: the slice size in eight bytes, the size of the recovery set in
-- four, and the IDs of both sets.
pub print_main_packet : MainPacket → List ℕ
print_main_packet p =
    le_bytes 8 p.slice_byte_count
    ++ (le_bytes 4 (length p.recovery_set) ++ flatten (p.recovery_set ++ p.non_recovery_set))

-- What the format can hold.
pub record IsMainPacket (p : MainPacket) : Type 0 where
  pub positive : 0 < p.slice_byte_count
  pub aligned : p.slice_byte_count % 4 ≡ 0
  pub fits_int : p.slice_byte_count ≤ max_int
  pub few : length (p.recovery_set ++ p.non_recovery_set) < 2 ^ 32
  pub ids : AllSized 16 (p.recovery_set ++ p.non_recovery_set)
  pub sorted : is_sorted p.recovery_set ≡ true

module _ (body : List ℕ) (s c : ℕ) (ids : List (List ℕ)) where
  -- A body is accepted where each test of the parser passes.
  accepts :
      12 ≤ length body
      → le_value (take 8 body) ≡ s
      → le_value (take 4 (drop 8 body)) ≡ c
      → length (drop 12 body) % 16 ≡ 0
      → chunks (length (drop 12 body) / 16) 16 (drop 12 body) ≡ ids
      → 0 < s
      → s % 4 ≡ 0
      → s ≤ max_int
      → c ≤ length ids % 2 ^ 32
      → is_sorted (take c ids) ≡ true
      → parse_main_packet body
        ≡ ok (record {
          slice_byte_count = s;
          recovery_set = take c ids;
          non_recovery_set = drop c ids;
        })
  unfolding parse_main_packet
  accepts long size count whole list pos aligned fits enough sorted =
      rw (test_long, size, count, test_size, test_whole, list, test_enough, sorted)
    where
      test_long : ltb (length body) 12 ≡ false
      test_long = ground arith

      test_size : (s == 0 || not (s % 4 == 0) || ltb max_int s) ≡ false
      test_size = ground arith

      test_whole : not (length (drop 12 body) % 16 == 0) ≡ false
      test_whole = ground arith

      test_enough : ltb (length ids % 2 ^ 32) c ≡ false
      test_enough = ground arith

drop_head : (a b f : List ℕ) → length a ≡ 8 → length b ≡ 4 → drop 12 (a ++ (b ++ f)) ≡ f
drop_head a b f h k =
    rw (← append_assoc a b f) (drop-append_length 12 (a ++ b) f (omega (arith, length-append a b)))

-- A printed main packet parses back to itself, if it is one that the format can hold.
pub parse-print_main_packet :
    (p : MainPacket) → IsMainPacket p → parse_main_packet (print_main_packet p) ≡ ok p
unfolding print_main_packet
parse-print_main_packet p valid =
    accepts (print_main_packet p) p.slice_byte_count (length p.recovery_set) ids
      (omega (arith, length-append a (b ++ f), length-append b f, length_a, length_b))
      (ap le_value (take-append_length 8 a (b ++ f) length_a) ∙ le_value-le_bytes 8 _ (omega arith))
      (ap (λ (t : List ℕ). le_value (take 4 t)) (drop-append_length 8 a (b ++ f) length_a)
        ∙ ap le_value (take-append_length 4 b f length_b)
        ∙ le_value-le_bytes 4 _
            (omega (arith, length-append {0} p.recovery_set p.non_recovery_set)))
      (rw body (omega (arith, length_f)))
      (rw body
        (ap (λ (n : ℕ). chunks n 16 f) count ∙ chunks-flatten (length ids) 16 ids valid.ids refl))
      valid.positive valid.aligned valid.fits_int
      (omega (arith, valid.few, length-append {0} p.recovery_set p.non_recovery_set))
      (rw taken valid.sorted)
    ∙ ap₂
        (λ (xs ys : List (List ℕ)). ok (record {
          slice_byte_count = p.slice_byte_count;
          recovery_set = xs;
          non_recovery_set = ys;
        }))
        taken (drop-append_length (length p.recovery_set) p.recovery_set p.non_recovery_set refl)
  where
    ids : List (List ℕ)
    ids = p.recovery_set ++ p.non_recovery_set

    a : List ℕ
    a = le_bytes 8 p.slice_byte_count

    b : List ℕ
    b = le_bytes 4 (length p.recovery_set)

    f : List ℕ
    f = flatten ids

    length_a : length a ≡ 8
    length_a = length-le_bytes 8 p.slice_byte_count

    length_b : length b ≡ 4
    length_b = length-le_bytes 4 (length p.recovery_set)

    body : drop 12 (a ++ (b ++ f)) ≡ f
    body = drop_head a b f length_a length_b

    length_f : length f ≡ length ids * 16
    length_f = length-flatten 16 ids valid.ids

    count : length f / 16 ≡ length ids
    count = omega (arith, length_f)

    taken : take (length p.recovery_set) ids ≡ p.recovery_set
    taken = take-append_length (length p.recovery_set) p.recovery_set p.non_recovery_set refl

abbrev ids_of : List ℕ → List (List ℕ)
ids_of body = chunks (length (drop 12 body) / 16) 16 (drop 12 body)

abbrev size_of : List ℕ → ℕ
size_of body = le_value (take 8 body)

abbrev count_of : List ℕ → ℕ
count_of body = le_value (take 4 (drop 8 body))

abbrev packet_of : List ℕ → MainPacket
packet_of body = record {
  slice_byte_count = size_of body;
  recovery_set = take (count_of body) (ids_of body);
  non_recovery_set = drop (count_of body) (ids_of body);
}

accepted :
    (body : List ℕ) (p : MainPacket)
    → parse_main_packet body ≡ ok p
    → (12 ≤ length body)
      × (0 < size_of body)
      × (size_of body % 4 ≡ 0)
      × (size_of body ≤ max_int)
      × (length (drop 12 body) % 16 ≡ 0)
      × (count_of body ≤ length (ids_of body) % 2 ^ 32)
      × (is_sorted (take (count_of body) (ids_of body)) ≡ true)
      × (packet_of body ≡ p)
unfolding parse_main_packet
accepted body p run = ground arith

-- The slice size of a parsed packet, whatever the numbers in the body are.
pub main_bounds :
    (body : List ℕ) (p : MainPacket)
    → parse_main_packet body ≡ ok p
    → (0 < p.slice_byte_count) × (p.slice_byte_count % 4 ≡ 0) × (p.slice_byte_count ≤ max_int)
main_bounds body p run =
    let (long, pos, aligned, fits, whole, enough, sorted, e) = accepted body p run in
    subst
      (λ (q : MainPacket).
        (0 < q.slice_byte_count) × (q.slice_byte_count % 4 ≡ 0) × (q.slice_byte_count ≤ max_int))
      e (pos, aligned, fits)

-- Of a body of fewer than 2^32 bytes, what `ParseMainPacket` accepts is what the layout writes for
-- the packet that it returns, and the packet is one that the format can hold.
pub print-parse_main_packet :
    (body : List ℕ) (p : MainPacket)
    → IsBytes body
    → length body < 2 ^ 32
    → parse_main_packet body ≡ ok p
    → (print_main_packet p ≡ body) × IsMainPacket p
unfolding print_main_packet
print-parse_main_packet body p bytes short run =
    let (long, pos, aligned, fits, whole, enough, sorted, e) = accepted body p run in
    let count : count_of body ≤ length (ids_of body) =
      omega (arith, mod_le (length (ids_of body)) (2 ^ 32)) in
    subst (λ (q : MainPacket). (print_main_packet q ≡ body) × IsMainPacket q) e
      (
        same long count whole,
        record {
          positive = pos;
          aligned = aligned;
          fits_int = fits;
          few = rw all_ids (
              omega (
                arith,
                length-chunks (length (drop 12 body) / 16) 16 (drop 12 body),
                length-drop 12 body,
              ));
          ids = rw all_ids (
              chunks-AllSized (length (drop 12 body) / 16) 16 (drop 12 body)
                (omega (arith, whole)));
          sorted = sorted;
        },
      )
  where
    all_ids : take (count_of body) (ids_of body) ++ drop (count_of body) (ids_of body) ≡ ids_of body
    all_ids = take-append-drop (count_of body) (ids_of body)

    mod_le : (m n : ℕ) → m % n ≤ m
    mod_le m n = grind arith

    same :
        12 ≤ length body
        → count_of body ≤ length (ids_of body)
        → length (drop 12 body) % 16 ≡ 0
        → print_main_packet (packet_of body) ≡ body
    same long count whole =
        ap₂ ◌++◌
          (exact 8 (take 8 body) (IsBytes-take 8 body bytes) (omega (arith, length-take 8 body)))
          (ap₂ ◌++◌
              (ap (le_bytes 4) (omega (arith, length-take {0} (count_of body) (ids_of body)))
                ∙ exact 4 (take 4 (drop 8 body))
                    (IsBytes-take 4 (drop 8 body) (IsBytes-drop 8 body bytes))
                    (omega (arith, length-take 4 (drop 8 body), length-drop 8 body)))
              (ap flatten all_ids
                ∙ flatten-chunks (length (drop 12 body) / 16) 16 (drop 12 body)
                    (omega (arith, whole))
                ∙ sym (drop-drop 8 4 body))
            ∙ take-append-drop 4 (drop 8 body))
        ∙ take-append-drop 8 body
      where
        exact : (n : ℕ) (bs : List ℕ) → IsBytes bs → length bs ≡ n → le_bytes n (le_value bs) ≡ bs
        exact n bs h e = ap (λ (m : ℕ). le_bytes m (le_value bs)) (sym e) ∙ le_bytes-le_value bs h
