-- ===== src/DataGenerator/Replay.antt =====
-- src/emulated_data_generator.cpp: the buffers that are given out are those of the file, in order.
use uscope_driver.Prelude.{
  ℕ, zero, suc, ◌+◌, ◌-◌, ◌*◌, ◌^◌, ◌≤◌, ◌<◌, ◌≡◌, refl, sym, ap, subst, ◌∙◌, true, false, List, [],
  ◌∷◌, ◌++◌, Option, none, some, ◌==◌, if◌then◌else◌, length, get_elem?, drop, take-drop, drop-drop,
  leb, Bool-cases, inl, inr, drop_all, arith, u64,
}
use native.Mathlib.Nat.{mul-mod_left, mul-div_cancel}
use uscope_driver.Exec.{Exec, ok, pure, ◌>>=◌}
use uscope_driver.Floats.{Float, FloatingPoint}
use uscope_driver.DataGenerator.{
  EmulatedDataGenerator, Chunks, n_channels, make_generator, chunk_at, cut_from, append_to,
  add_channel, add_channels, set_data_file, select_from, next_chunk, get_data,
}

-- What some calls of `get_data` give, one after the other.
unfoldable pub play :
    FloatingPoint
    → (ℕ → ℕ → Float)
    → List Float
    → ℕ
    → Exec EmulatedDataGenerator (List (List (List Float)))
play fp sample factors zero = pure []
play fp sample factors (suc calls) = do
  selected_data ← get_data fp sample factors
  rest ← play fp sample factors calls
  pure (selected_data ∷ rest)

abbrev pub of_channel : Option (List Float) → List Float
of_channel none = []
of_channel (some samples) = samples

-- The samples of a channel in what some calls gave, put together.
abbrev pub joined : ℕ → List (List (List Float)) → List Float
joined c [] = []
joined c (selected_data ∷ rest) = of_channel (get_elem? selected_data c) ++ joined c rest

length-cut_from : (size left j : ℕ) (raw : List Float) → length (cut_from size left j raw) ≡ left
unfolding cut_from
length-cut_from size zero j raw = refl
length-cut_from size (suc left) j raw = ap suc (length-cut_from size left (j + 1) raw)

get_elem?-cut_from :
    (size left j k : ℕ) (raw : List Float)
    → k < left
    → get_elem? (cut_from size left j raw) k ≡ some (chunk_at size (j + k) raw)
unfolding cut_from
get_elem?-cut_from size zero j k raw h = absurd (omega (arith, h))
get_elem?-cut_from size (suc left) j zero raw h =
    ap (λ (i : ℕ). some (chunk_at size i raw)) (omega arith)
get_elem?-cut_from size (suc left) j (suc k) raw h =
    get_elem?-cut_from size left (j + 1) k raw (omega (arith, h))
    ∙ ap (λ (i : ℕ). some (chunk_at size i raw)) (omega arith)

chunk-drop :
    (size k : ℕ) (raw : List Float)
    → chunk_at size k raw ++ drop ((k + 1) * size) raw ≡ drop (k * size) raw
chunk-drop size k raw =
    let e : (k + 1) * size ≡ k * size + size = grind arith in
    rw (e, ← drop-drop size (k * size) raw) (take-drop size (drop (k * size) raw))

module _ (size n : ℕ) (raw_data : ℕ → List Float) where
  -- Every channel fills some number of buffers, the same for all.
  pub record Fills : Type 0 where
    pub sized : 0 < size
    pub some_chunk : 0 < n
    pub small : n < 2 ^ 31
    pub full : (c : ℕ) → length (raw_data c) ≡ n * size

  added : ℕ → ℕ → Chunks → Chunks
  added zero i chunks = chunks
  added (suc left) i chunks =
      added left (i + 1) (append_to i (cut_from size n 0 (raw_data i)) chunks)

module _ (size n : ℕ) (raw_data : ℕ → List Float) (f : Fills size n raw_data) where
  add_channels_lem :
      (left i : ℕ) (g : EmulatedDataGenerator)
      → g.buffer_size ≡ size
      → add_channels left i raw_data g
        ≡ (ok tt, record g { chunks = added size n raw_data left i g.chunks })
  unfolding add_channels add_channel added
  add_channels_lem zero i g e = refl
  add_channels_lem (suc left) i g e =
      let nonzero : (size == 0) ≡ false = ground (arith, f.sized) in
      let one : add_channel i (raw_data i) g
          ≡ (ok tt, record g { chunks = append_to i (cut_from size n 0 (raw_data i)) g.chunks }) =
        simp (e, f.full i, mul-mod_left n size, mul-div_cancel n f.sized, nonzero) refl in
      rw one (add_channels_lem left (i + 1) _ e)

  -- The generator after the file was read and `k` buffers of each channel were given out.
  abbrev at : ℕ → EmulatedDataGenerator
  at k = record {
    chunks = added size n raw_data n_channels 0 (λ i. []);
    chunk_counter = k;
    external_emulator_data = true;
    buffer_size = size;
  }

  set_lem : set_data_file (ok raw_data) (make_generator size) ≡ (ok tt, at 0)
  unfolding set_data_file make_generator
  set_lem = rw (add_channels_lem n_channels 0 (make_generator size) refl) refl

  chunks_lem :
      (c : ℕ) → c < 7 → added size n raw_data 7 0 (λ i. []) c ≡ cut_from size n 0 (raw_data c)
  unfolding added
  chunks_lem c h = ground arith

  rows : ℕ → ℕ → ℕ → List (List Float)
  rows k zero i = []
  rows k (suc left) i = chunk_at size k (raw_data i) ∷ rows k left (i + 1)

  current :
      (c k : ℕ)
      → c < 7
      → k < n
      → get_elem? ((at k).chunks c) k ≡ some (chunk_at size k (raw_data c))
  current c k hc hk = rw (chunks_lem c hc) (
      get_elem?-cut_from size n 0 k (raw_data c) hk
      ∙ ap (λ (i : ℕ). some (chunk_at size i (raw_data c))) (omega arith))

  select_lem :
      (k left i : ℕ) → k < n → i + left ≤ 7 → select_from left i (at k) ≡ (ok (rows k left i), at k)
  unfolding select_from rows
  select_lem k zero i hk hi = refl
  select_lem k (suc left) i hk hi =
      rw (current i k (omega (arith, hi)) hk, select_lem k left (i + 1) hk (omega (arith, hi))) refl

  row_lem :
      (k left i c : ℕ)
      → c < left
      → get_elem? (rows k left i) c ≡ some (chunk_at size k (raw_data (i + c)))
  unfolding rows
  row_lem k zero i c h = absurd (omega (arith, h))
  row_lem k (suc left) i zero h = ap (λ (j : ℕ). some (chunk_at size k (raw_data j))) (omega arith)
  row_lem k (suc left) i (suc c) h =
      row_lem k left (i + 1) c (omega (arith, h))
      ∙ ap (λ (j : ℕ). some (chunk_at size k (raw_data j))) (omega arith)

  after : ℕ → ℕ
  after k = if k + 1 == n then 0 else k + 1

  next_lem : (k : ℕ) → k < n → next_chunk (at k) ≡ (ok tt, at (after k))
  unfolding next_chunk after
  next_lem k h =
      let e : u64 (length (added size n raw_data 7 0 (λ i. []) 0) + 2 ^ 64 - 1) ≡ n - 1 =
        rw (chunks_lem 0 (omega arith), length-cut_from size n 0 (raw_data 0))
          (omega (arith, f.some_chunk, f.small)) in
      let t : (k == n - 1) ≡ (k + 1 == n) = ground (arith, f.some_chunk) in
      let c : leb (2 ^ 31 - 1) k ≡ false = ground (arith, h, f.small) in
      elim (Bool-cases (k + 1 == n)) [ inl q ↦ rw (e, t, q) refl | inr q ↦ rw (e, t, q, c) refl ]

  module _ (fp : FloatingPoint) (sample : ℕ → ℕ → Float) (factors : List Float) where
    data_lem : (k : ℕ) → k < n → get_data fp sample factors (at k) ≡ (ok (rows k 7 0), at (after k))
    unfolding get_data
    data_lem k h = rw (select_lem k 7 0 h (omega arith)) (rw (next_lem k h) refl)

    -- The buffers from the `k`-th on.
    played : ℕ → ℕ → List (List (List Float))
    played zero k = []
    played (suc calls) k = rows k 7 0 ∷ played calls (k + 1)

    play_step :
        (calls k : ℕ) (rest : List (List (List Float)))
        → k < n
        → play fp sample factors calls (at (after k)) ≡ (ok rest, at 0)
        → play fp sample factors (suc calls) (at k) ≡ (ok (rows k 7 0 ∷ rest), at 0)
    unfolding play
    play_step calls k rest h e = rw (data_lem k h, e) refl

    play_lem :
        (calls k : ℕ)
        → suc calls + k ≡ n
        → play fp sample factors (suc calls) (at k) ≡ (ok (played (suc calls) k), at 0)
    unfolding played
    play_lem zero k e =
        let last : after k ≡ 0 = unfold after in ground arith in
        play_step 0 k [] (omega (arith, e)) (rw last (unfold play in refl))
    play_lem (suc calls) k e =
        let next : after k ≡ k + 1 = unfold after in ground arith in
        play_step (suc calls) k (played (suc calls) (k + 1)) (omega (arith, e))
          (rw next (play_lem calls (k + 1) (omega (arith, e))))

    joined_lem :
        (calls k c : ℕ)
        → c < 7
        → calls + k ≡ n
        → joined c (played calls k) ≡ drop (k * size) (raw_data c)
    unfolding played
    joined_lem zero k c hc e =
        let last : k ≡ n = omega arith in
        sym (drop_all (k * size) (raw_data c) (rw (f.full c, last) (omega arith)))
    joined_lem (suc calls) k c hc e =
        let z : 0 + c ≡ c = omega arith in
        rw (row_lem k 7 0 c hc, joined_lem calls (k + 1) c hc (omega (arith, e)), z)
          (chunk-drop size k (raw_data c))

    -- After a file was read in which every channel fills the same number of buffers, above zero and
    -- below 2^31, that
    -- number of calls gives all samples of each channel, in the order of the file, whatever the
    -- scaling factors are, and the generator is where it was before them.
    pub play-set_data_file :
        (r : List (List (List Float))) × (g : EmulatedDataGenerator) × (set_data_file
            (ok raw_data)
            (make_generator size)
          ≡ (ok tt, g))
        × (play fp sample factors n g ≡ (ok r, g))
        × ((c : ℕ) → c < n_channels → joined c r ≡ raw_data c)
    play-set_data_file =
        let e : suc (n - 1) ≡ n = omega (arith, f.some_chunk) in
        let all : play fp sample factors n (at 0) ≡ (ok (played n 0), at 0) =
          subst (λ (j : ℕ). play fp sample factors j (at 0) ≡ (ok (played j 0), at 0)) e
            (play_lem (n - 1) 0 (omega (arith, f.some_chunk))) in
        (
          played n 0,
          at 0,
          set_lem,
          all,
          λ c hc. joined_lem n 0 c hc (omega arith) ∙ start (raw_data c),
        )
      where
        start : (raw : List Float) → drop (0 * size) raw ≡ raw
        start raw = let z : 0 * size ≡ 0 = grind arith in rw z refl
