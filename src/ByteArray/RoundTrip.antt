-- ===== src/ByteArray/RoundTrip.antt =====
-- What it takes for a typed write and the matching read to undo each other.
use server_demo.Common.{ℕ, ◌≡◌, ap, ◌∙◌, List, ◌++◌, arith, length-append}
use server_demo.ByteArray.State.{ByteArray, ok, M, after, ◌>>=◌, ◌>>◌}
use server_demo.ByteArray.Buffer.{set_position}
use server_demo.ByteArray.Valid.{IsValid, unread}
use server_demo.ByteArray.Stream.{Took, Appended, set_position-unread, Appended-trans}

-- The write succeeds; with the position set back to where it began, the read returns the value and
-- stops where the write did.
abbrev pub RoundTrip {ℓ} : {A : Type ℓ} → M (Unit {0}) → M A → A → ByteArray → Type ℓ
RoundTrip m r v b =
    (c d e : ByteArray) × (m b ≡ ok tt c)
    × (set_position b.position c ≡ ok tt d)
    × (r d ≡ ok v e)
    × IsValid e
    × (e.position ≡ c.position)

-- The write puts these bytes at the position.
abbrev pub Puts : M (Unit {0}) → List ℕ → ByteArray → Type 0
Puts m bytes b = (c : ByteArray) × (m b ≡ ok tt c) × Appended b c bytes

-- The read takes these bytes from the front of the unread ones, and returns the value.
abbrev pub Takes {ℓ} : {A : Type ℓ} → M A → A → List ℕ → List ℕ → ByteArray → Type ℓ
Takes r v bytes rest b = (c : ByteArray) × (r b ≡ ok v c) × Took b c bytes rest

module _ {ℓ} {A : Type ℓ} where
  pub round_trip :
      (m : M (Unit {0})) (r : M A) (v : A) (bytes : List ℕ) (b : ByteArray)
      → IsValid b
      → Puts m bytes b
      → ((d : ByteArray) (rest : List ℕ)
          → IsValid d
          → d.endian ≡ b.endian
          → unread d ≡ bytes ++ rest
          → Takes r v bytes rest d)
      → RoundTrip m r v b
  round_trip m r v bytes b valid (c, run, a) takes =
      let (d, back, m, rest, e) = set_position-unread b c bytes valid a in
      let (e, got, t) = takes d rest m.valid (m.endian_eq ∙ a.endian_eq) e in
      (
        c,
        d,
        e,
        run,
        back,
        got,
        t.moved.valid,
        omega (arith, t.moved.position_eq, m.position_eq, a.position_eq),
      )

  -- Two reads in a row.
  pub Takes-bind {κ} :
      {B : Type κ} (r : M A) (f : A → M B) (v : A) (w : B) (xs ys rest : List ℕ) (b : ByteArray)
      → Takes r v xs (ys ++ rest) b
      → ((c : ByteArray) → Took b c xs (ys ++ rest) → Takes (f v) w ys rest c)
      → Takes (r >>= f) w (xs ++ ys) rest b
  Takes-bind r f v w xs ys rest b (c, run, t) next =
      let (d, run', t') = next c t in
      (
        d,
        ap (λ o. after o f) run ∙ run',
        record {
          moved = record {
            valid = t'.moved.valid;
            position_eq =
                omega (arith, t.moved.position_eq, t'.moved.position_eq, length-append xs ys);
            size_eq = omega (
              arith,
              t.moved.size_eq,
              t'.moved.size_eq,
              t.moved.position_eq,
              t'.moved.position_eq,
              length-append xs ys,
            );
            base_size_eq = t'.moved.base_size_eq ∙ t.moved.base_size_eq;
            capacity_eq = t'.moved.capacity_eq ∙ t.moved.capacity_eq;
            endian_eq = t'.moved.endian_eq ∙ t.moved.endian_eq;
            contents_eq = t'.moved.contents_eq ∙ t.moved.contents_eq;
          };
          rest_eq = t'.rest_eq;
        },
      )

  -- A conversion behind a read.
  pub Takes-map {κ} :
      {B : Type κ} (r : M A) (f : A → B) (v : A) (xs rest : List ℕ) (b : ByteArray)
      → Takes r v xs rest b
      → Takes (r >>= λ a c. ok (f a) c) (f v) xs rest b
  Takes-map r f v xs rest b (c, run, t) = (c, ap (λ o. after o (λ a c. ok (f a) c)) run, t)

-- Two writes in a row.
pub Puts-seq :
    (m n : M (Unit {0})) (xs ys : List ℕ) (b : ByteArray)
    → ((c : ByteArray) × (m b ≡ ok tt c) × Appended b c xs × Puts n ys c)
    → Puts (m >> n) (xs ++ ys) b
Puts-seq m n xs ys b (c, run, a, (d, run', a')) =
    (d, ap (λ o. after o (λ _. n)) run ∙ run', Appended-trans b c d xs ys a a')

pub RoundTrip-map {ℓ κ} :
    {A : Type ℓ} {B : Type κ} (m : M (Unit {0})) (r : M A) (f : A → B) (v : A) (b : ByteArray)
    → RoundTrip m r v b
    → RoundTrip m (r >>= λ a c. ok (f a) c) (f v) b
RoundTrip-map m r f v b (c, d, e, run, back, got, valid, end) =
    (c, d, e, run, back, ap (λ o. after o (λ a c. ok (f a) c)) got, valid, end)
