-- ===== src/Sort/Keys.antt =====
-- Sorting by a key that is a Go string.
use an_lf.Base.{
  ◌≡◌, true, false, arith, Bytes, bytes_lt, bytes_lt_irrefl, bytes_lt_trans, bytes_lt_total,
}
use an_lf.Sort.Laws.{IsWeakOrder}

bytes_lt_asym : (s t : Bytes) → bytes_lt s t ≡ true → bytes_lt t s ≡ false
bytes_lt_asym s t h = ground (arith, bytes_lt_trans s t s h, bytes_lt_irrefl s)

bytes_lt_cotrans :
    (x y z : Bytes) → bytes_lt y x ≡ false → bytes_lt z y ≡ false → bytes_lt z x ≡ false
bytes_lt_cotrans x y z h k = ground (
  arith,
  bytes_lt_total x y,
  bytes_lt_total y z,
  bytes_lt_trans z x y,
  bytes_lt_trans x y z,
  bytes_lt_trans y z x,
  bytes_lt_irrefl x,
  bytes_lt_irrefl z,
  bytes_lt_asym z x,
)

-- Entries ordered by a string key are ordered as the sort needs it.
pub by_key-IsWeakOrder {ℓ} :
    {A : Type ℓ} (key : A → Bytes) → IsWeakOrder (λ (a b : A). bytes_lt (key a) (key b))
by_key-IsWeakOrder key = record {
  asym = λ x y. bytes_lt_asym (key x) (key y);
  trans = λ x y z. bytes_lt_cotrans (key x) (key y) (key z);
}

-- Strings of which neither comes before the other are equal.
pub bytes_lt_antisym : (s t : Bytes) → bytes_lt s t ≡ false → bytes_lt t s ≡ false → s ≡ t
bytes_lt_antisym s t h k = ground (arith, bytes_lt_total s t)
