-- ===== src/Connector/Reception.antt =====
-- A message is put together from the chunks in which it arrives.
use mathlib.Core.List.{append_assoc}
use uscope_driver.Prelude.{
  ℕ, zero, suc, ◌+◌, ◌-◌, ◌<◌, ◌≤◌, ◌^◌, ◌≡◌, ◌∙◌, refl, sym, ap, subst, inl, inr, Bool-cases, List,
  [], ◌∷◌, ◌++◌, some, ltb, ◌&&◌, if◌then◌else◌, length, length-append, get_elem?, get_elem?_of_lt,
  take, drop, take-drop, length-take_le, u32, arith, le→ltb, le→leb, lt→ltb, ltb→lt, ltb→le,
}
use uscope_driver.Exec.{ok, pure}
use uscope_driver.Connector.{
  Arrival, chunk, failure, Connection, bytes, put_back, taken, read_some, overwrite, copied,
  chunk_size, max_msg_size, store_chunk, receive_chunks,
}

-- The bytes that can be read before an error or the end.
unfoldable pub flat : List Arrival → List ℕ
flat [] = []
flat (failure ∷ incoming) = []
flat (chunk b bs ∷ incoming) = b ∷ bs ++ flat incoming

flat-put_back :
    (bs : List ℕ) (incoming : List Arrival) → flat (put_back bs incoming) ≡ bs ++ flat incoming
unfolding flat
flat-put_back [] incoming = refl
flat-put_back (b ∷ bs) incoming = refl

-- What a read of some bytes leaves.
record IsRead (n : ℕ) (incoming : List Arrival) : Type 0 where
  read : List ℕ
  left : List Arrival
  is_taken : taken n incoming ≡ (bytes read, left)
  split : flat incoming ≡ read ++ flat left
  some_bytes : 0 < length read
  at_most : length read ≤ n

is_read : (n : ℕ) (incoming : List Arrival) → 0 < n → 0 < length (flat incoming) → IsRead n incoming
unfolding flat
is_read n [] pos there = absurd (omega (arith, there))
is_read n (failure ∷ incoming) pos there = absurd (omega (arith, there))
is_read zero (chunk b bs ∷ incoming) pos there = absurd (omega (arith, pos))
is_read (suc n) (chunk b bs ∷ incoming) pos there = record {
  read = b ∷ take n bs;
  left = put_back (drop n bs) incoming;
  is_taken = refl;
  split =
      ap (λ xs. b ∷ xs ++ flat incoming) (sym (take-drop n bs))
      ∙ ap (λ xs. b ∷ xs) (append_assoc (take n bs) (drop n bs) (flat incoming))
      ∙ ap (λ xs. b ∷ take n bs ++ xs) (sym (flat-put_back (drop n bs) incoming));
  some_bytes = omega arith;
  at_most = omega (arith, length-take_le n bs);
}

-- The bytes of a message from `from` to `size` are stored, and those before are kept.
pub record IsReceived (received : List ℕ) (from size : ℕ) (before after : ℕ → ℕ) : Type 0 where
  pub kept : (i : ℕ) → i < from → after i ≡ before i
  pub stored : (i : ℕ) → from ≤ i → i < size → get_elem? received (i - from) ≡ some (after i)

get_elem?_first :
    {A : Type 0} (xs ys : List A) (i : ℕ) → i < length xs → get_elem? (xs ++ ys) i ≡ get_elem? xs i
get_elem?_first [] ys i h = absurd (omega (arith, h))
get_elem?_first (x ∷ xs) ys zero h = refl
get_elem?_first (x ∷ xs) ys (suc i) h = get_elem?_first xs ys i (omega (arith, h))

get_elem?_second :
    {A : Type 0} (xs ys : List A) (i j : ℕ)
    → j ≡ length xs + i
    → get_elem? (xs ++ ys) j ≡ get_elem? ys i
get_elem?_second [] ys i j h = ap (get_elem? ys) (omega (arith, h))
get_elem?_second (x ∷ xs) ys i zero h = absurd (omega (arith, h))
get_elem?_second (x ∷ xs) ys i (suc j) h = get_elem?_second xs ys i j (omega (arith, h))

overwrite_at :
    (bs : List ℕ) (buffer : ℕ → ℕ) (i : ℕ)
    → i < length bs
    → get_elem? bs i ≡ some (overwrite bs buffer i)
overwrite_at bs buffer i h = let (b, found) = get_elem?_of_lt bs i h in ground (arith, found)

-- What one round stores.
stored_chunk :
    (bs rest : List ℕ) (from : ℕ) (chunk_buffer before : ℕ → ℕ)
    → length bs ≤ chunk_size
    → IsReceived
        (bs ++ rest)
        from
        (from + length bs)
        before
        (copied from (overwrite bs chunk_buffer) before)
stored_chunk bs rest from chunk_buffer before le = record {
  kept = λ i h. ground arith;
  stored = λ i lo hi.
      get_elem?_first bs rest (i - from) (omega (arith, lo, hi))
      ∙ overwrite_at bs chunk_buffer (i - from) (omega (arith, lo, hi))
      ∙ ap some (sym (copied_inside bs from chunk_buffer before i lo (omega (arith, lo, hi, le))));
}
  where
    copied_inside :
        (bs : List ℕ) (from : ℕ) (chunk_buffer before : ℕ → ℕ) (i : ℕ)
        → from ≤ i
        → i < from + chunk_size
        → copied from (overwrite bs chunk_buffer) before i ≡ overwrite bs chunk_buffer (i - from)
    copied_inside bs from chunk_buffer before i lo hi =
        ap
          (λ t.
            if t && ltb i (from + chunk_size)
            then overwrite bs chunk_buffer (i - from)
            else before i)
          (le→leb from i lo)
        ∙ ap (λ t. if t then overwrite bs chunk_buffer (i - from) else before i)
            (lt→ltb i (from + chunk_size) hi)

-- Two rounds after each other.
IsReceived-both :
    (bs rest : List ℕ) (from size : ℕ) (before between after : ℕ → ℕ)
    → IsReceived (bs ++ rest) from (from + length bs) before between
    → IsReceived rest (from + length bs) size between after
    → IsReceived (bs ++ rest) from size before after
IsReceived-both bs rest from size before between after first second = record {
  kept = λ i h. second.kept i (omega (arith, h)) ∙ first.kept i h;
  stored = λ i lo hi. elim (Bool-cases (ltb i (from + length bs))) [
    | inl early ↦
        first.stored i lo (ltb→lt i (from + length bs) early)
        ∙ ap some (sym (second.kept i (ltb→lt i (from + length bs) early)))
    | inr late ↦
        let past = ltb→le i (from + length bs) late in
        get_elem?_second bs rest (i - (from + length bs)) (i - from) (omega (arith, past))
        ∙ second.stored i past hi
  ];
}

IsReceived-shorter :
    (bs : List ℕ) (from size size' : ℕ) (before after : ℕ → ℕ)
    → size ≤ size'
    → IsReceived bs from size' before after
    → IsReceived bs from size before after
IsReceived-shorter bs from size size' before after le r = record {
  kept = r.kept;
  stored = λ i lo hi. r.stored i lo (omega (arith, le, hi));
}

-- The connection after a chunk was stored.
abbrev after_chunk : ℕ → List ℕ → List Arrival → Connection → Connection
after_chunk from bs left c = record c {
  incoming = left;
  chunk_buffer = overwrite bs c.chunk_buffer;
  message_buffer = copied from (overwrite bs c.chunk_buffer) c.message_buffer;
}

one_round :
    (fuel size from : ℕ) (c : Connection) (bs : List ℕ) (left : List Arrival)
    → taken chunk_size c.incoming ≡ (bytes bs, left)
    → from + chunk_size ≤ max_msg_size
    → length bs ≤ chunk_size
    → receive_chunks (suc fuel) size from c
      ≡ (if ltb (from + length bs) size
            then receive_chunks fuel size (from + length bs)
            else pure tt)
          (after_chunk from bs left c)
unfolding receive_chunks read_some store_chunk
one_round fuel size from c bs left read fits le = rw (
  read,
  le→ltb max_msg_size (from + chunk_size) fits,
  small (from + length bs) (omega (arith, fits, le)),
)
  where
    small : (n : ℕ) → n ≤ 2 ^ 30 → u32 n ≡ n
    small n h = omega (arith, h)

-- The loop ends when the bytes of the message are there, and has stored them in order.
pub receive_chunks_lem :
    (fuel size from : ℕ) (c : Connection)
    → length (flat c.incoming) < fuel
    → from < size
    → size ≤ from + length (flat c.incoming)
    → size + chunk_size ≤ max_msg_size
    → (c' : Connection) × (receive_chunks fuel size from c ≡ (ok tt, c'))
      × IsReceived (flat c.incoming) from size c.message_buffer c'.message_buffer
receive_chunks_lem zero size from c enough more there fits = absurd (omega (arith, enough))
receive_chunks_lem (suc fuel) size from c enough more there fits =
    let r = is_read chunk_size c.incoming (omega arith) (omega (arith, more, there)) in
    let c1 = after_chunk from r.read r.left c in
    let total = ap length r.split ∙ length-append r.read (flat r.left) in
    let round =
      one_round fuel size from c r.read r.left r.is_taken (omega (arith, more, fits)) r.at_most in
    let stored = stored_chunk r.read (flat r.left) from c.chunk_buffer c.message_buffer r.at_most in
    elim (Bool-cases (ltb (from + length r.read) size)) [
      | inl again ↦
          let (c', ended, rest) =
            receive_chunks_lem fuel size (from + length r.read) c1
              (omega (arith, enough, total, r.some_bytes))
              (ltb→lt (from + length r.read) size again) (omega (arith, there, total)) fits in
          (
            c',
            round
                ∙ ap
                    (λ t.
                      (if t then receive_chunks fuel size (from + length r.read) else pure tt) c1)
                    again
                ∙ ended,
            subst (λ xs. IsReceived xs from size c.message_buffer c'.message_buffer) (sym r.split)
                (IsReceived-both r.read (flat r.left) from size c.message_buffer c1.message_buffer
                  c'.message_buffer stored rest),
          )
      | inr done ↦ (
        c1,
        round
            ∙ ap (λ t. (if t then receive_chunks fuel size (from + length r.read) else pure tt) c1)
                done,
        subst (λ xs. IsReceived xs from size c.message_buffer c1.message_buffer) (sym r.split)
            (IsReceived-shorter (r.read ++ flat r.left) from size (from + length r.read)
              c.message_buffer c1.message_buffer (ltb→le (from + length r.read) size done) stored),
      )
    ]
