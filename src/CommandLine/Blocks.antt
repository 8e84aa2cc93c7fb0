-- ===== src/CommandLine/Blocks.antt =====
-- What the loop of psplay.c over an audio file hands over.
use psplay.Base.{
  ℕ, zero, suc, ◌<◌, ◌≤◌, ◌≡◌, refl, sym, ap, ◌∙◌, arith, ◌==◌, Bool-cases, inl, inr, some, List,
  ◌∷◌, [], ◌++◌, All, append_assoc, append-nil, length, take, drop,
}
use psplay.Base.Cut.{length-drop, take-all, nil_of_length}
use psplay.PingPong.{Pair, pair_at, pair_set, Side, side_0, side_1}
use psplay.BitbangPlayer.Boundary.{concat-append}
use psplay.BitbangPlayer.Follows.{AreFull, concat, fill-AreFull}
use psplay.CommandLine.Audio.{SoundRead, SoundLibrary, Filler, block_read, block_done, read_file}
use psplay.CommandLine.Padded.{padded_lem}

-- What the library promises, with a file seen as its samples left to read: a read into an array with room
-- takes the next ones, as many as are asked for or there, to the front of the array, says how many, and
-- leaves the array as long as it was. Of what it leaves behind them in the array nothing is promised.
pub record LibraryView {Double : Type 0} (S : SoundLibrary Double) : Type 0 where
  pub samples : S.File → List Double
  pub counts :
      (f : S.File) (array : List Double) (n : ℕ)
      → n ≤ length array
      → (S.sf_read_double f array n).count ≡ length (take n (samples f))
  pub delivers :
      (f : S.File) (array : List Double) (n : ℕ)
      → n ≤ length array
      → take (length (take n (samples f))) (S.sf_read_double f array n).array ≡ take n (samples f)
  pub sized :
      (f : S.File) (array : List Double) (n : ℕ)
      → n ≤ length array
      → length (S.sf_read_double f array n).array ≡ length array
  pub leaves :
      (f : S.File) (array : List Double) (n : ℕ)
      → n ≤ length array
      → samples (S.sf_read_double f array n).file ≡ drop n (samples f)

All-append-one :
    {A : Type 0} (P : A → Type 0) (xs : List A) (x : A) → All P xs → P x → All P (xs ++ x ∷ [])
All-append-one P [] x all h = (h, tt)
All-append-one P (y ∷ xs) x (k, all) h = (k, All-append-one P xs x all h)

module _ {A : Type 0} where
  pair_at-set_self : (b : Pair A) (i : Side) (a : A) → pair_at (pair_set b i a) i ≡ a
  pair_at-set_self b side_0 a = refl
  pair_at-set_self b side_1 a = refl

length-pair_at :
    {A : Type 0} (size : ℕ) (b : Pair (List A)) (i : Side)
    → AreFull size b
    → length (pair_at b i) ≡ size
length-pair_at size b side_0 (e, f) = e
length-pair_at size b side_1 (e, f) = f

length-take_positive :
    {A : Type 0} (n : ℕ) (xs : List A) → 0 < n → 0 < length xs → 0 < length (take n xs)
length-take_positive zero xs h k = absurd (omega arith)
length-take_positive (suc n) [] h k = absurd (omega arith)
length-take_positive (suc n) (x ∷ xs) h k = omega arith

module _ {Double : Type 0} {S : SoundLibrary Double} (L : LibraryView S) where
  -- What the next read comes to.
  abbrev got_of : ℕ → Filler S → SoundRead S.File Double
  got_of size r = S.sf_read_double r.file (pair_at r.bufs r.side) size

  read_file-end :
      (fuel size : ℕ) (r : Filler S)
      → (got_of size r).count ≡ 0
      → read_file (suc fuel) size r ≡ some (block_read (got_of size r) r)
  unfolding read_file
  read_file-end fuel size r h = ground arith

  read_file-on :
      (fuel size : ℕ) (r : Filler S)
      → 0 < (got_of size r).count
      → read_file (suc fuel) size r
        ≡ read_file fuel size (block_done (block_read (got_of size r) r))
  unfolding read_file
  read_file-on fuel size r h = ground arith

  -- What the loop over a file makes of it: the blocks handed over are the samples, with less than a block
  -- behind them, and nothing where there were none.
  pub record Read (size : ℕ) (r r' : Filler S) : Type 0 where
    pub padding : List Double
    pub short : length padding < size
    pub none_behind : L.samples r.file ≡ [] → padding ≡ []
    pub said : concat r'.blocks ≡ concat r.blocks ++ (L.samples r.file ++ padding)
    pub blocks_sized : All (λ b. length b ≡ size) r.blocks → All (λ b. length b ≡ size) r'.blocks

  pub read_file_lem :
      (fuel size : ℕ) (r : Filler S)
      → 0 < size
      → length (L.samples r.file) < fuel
      → AreFull size r.bufs
      → (r' : Filler S) × (read_file fuel size r ≡ some r') × Read size r r'
  read_file_lem zero size r positive enough full = absurd (omega arith)
  read_file_lem (suc fuel) size r positive enough full =
      let s = L.samples r.file in
      let own = pair_at r.bufs r.side in
      let own_size = length-pair_at size r.bufs r.side full in
      let room : size ≤ length own = omega (arith, own_size) in
      let got = S.sf_read_double r.file own size in
      let counted = L.counts r.file own size room in
      elim (Bool-cases (length s == 0)) [
        | inl end ↦
            let e = nil_of_length s (ground arith) in
            let none_read : got.count ≡ 0 =
              counted
              ∙ ap (λ t. length (take size t)) e
              ∙ ap length (take-all size [] (omega arith)) in
            (
              block_read got r,
              read_file-end fuel size r none_read,
              record {
                padding = [];
                short = positive;
                none_behind = λ h. refl;
                said =
                    sym (ap (λ l. concat r.blocks ++ (l ++ [])) e ∙ append-nil (concat r.blocks));
                blocks_sized = λ all. all;
              },
            )
        | inr more ↦
            let some_left : 0 < length s = ground arith in
            let left = L.leaves r.file own size room in
            let block = got.array in
            let block_size = L.sized r.file own size room ∙ own_size in
            let r1 = block_done (block_read got r) in
            let same = pair_at-set_self r.bufs r.side block in
            let (r', runs, v) =
              read_file_lem fuel size r1 positive
                (omega (arith, ap length left, length-drop size s))
                (fill-AreFull size r.bufs r.side block block_size full) in
            let (padding, short, covers) =
              padded_lem size s block v.padding some_left block_size
                (L.delivers r.file own size room) v.short (λ h. v.none_behind (left ∙ h)) in
            (
              r',
              read_file-on fuel size r
                    (omega (arith, counted, length-take_positive size s positive some_left))
                  ∙ runs,
              record {
                padding = padding;
                short = short;
                none_behind = λ h. absurd (omega (arith, ap length h));
                said =
                    v.said
                    ∙ ap (λ b. concat (r.blocks ++ b ∷ []) ++ (L.samples got.file ++ v.padding))
                        same
                    ∙ ap (λ t. concat (r.blocks ++ block ∷ []) ++ (t ++ v.padding)) left
                    ∙ ap (λ l. l ++ (drop size s ++ v.padding))
                        (concat-append r.blocks (block ∷ [])
                          ∙ ap (λ l. concat r.blocks ++ l) (append-nil block))
                    ∙ append_assoc (concat r.blocks) block (drop size s ++ v.padding)
                    ∙ ap (λ l. concat r.blocks ++ l) covers;
                blocks_sized = λ all. v.blocks_sized (
                    All-append-one (λ b. length b ≡ size) r.blocks
                      (pair_at (pair_set r.bufs r.side block) r.side) all
                      (ap length same ∙ block_size));
              },
            )
      ]
