-- ===== src/Machine/Accounting.antt =====
-- The books of one machine (machine.h): reserved and free cores add up to its size.
use servy.Prelude.{◌≡◌, ap, inl, inr, Bool-cases}
use servy.Prelude.Int.{
  ℤ, pos, ◌+ℤ◌, ◌-ℤ◌, ◌≤ℤ◌, leb_ℤ, leb_ℤ_of_le, le_of_leb_ℤ, +ℤ_cancel, +ℤ-ℤ_cancel, int_laws,
  pos_part, neg_part,
}
use servy.Machine.{Machine, alloc, free}

pub record IsValid (m : Machine) : Type 0 where
  pub total : m.res +ℤ m.free ≡ m.size
  pub res_nonneg : pos 0 ≤ℤ m.res
  pub free_nonneg : pos 0 ≤ℤ m.free

-- What a granted request makes of a machine.
abbrev pub reserved : Machine → ℤ → Machine
reserved m n = record m { res = m.res +ℤ n; free = m.free -ℤ n }

-- What a granted return makes of it.
abbrev pub returned : Machine → ℤ → Machine
returned m n = record m { res = m.res -ℤ n; free = m.free +ℤ n }

pub alloc_granted : (m : Machine) (n : ℤ) → n ≤ℤ m.free → (alloc m n).0 ≡ reserved m n
unfolding alloc
alloc_granted m n h = rw (leb_ℤ_of_le n m.free h)

pub free_granted : (m : Machine) (n : ℤ) → n ≤ℤ m.res → (free m n).0 ≡ returned m n
unfolding free
free_granted m n h = rw (leb_ℤ_of_le n m.res h)

pub reserved-IsValid :
    (m : Machine) (n : ℤ) → pos 0 ≤ℤ n → n ≤ℤ m.free → IsValid m → IsValid (reserved m n)
reserved-IsValid m n h k v = record {
  total = omega (int_laws, ap pos_part v.total, ap neg_part v.total);
  res_nonneg = omega int_laws;
  free_nonneg = omega int_laws;
}

pub returned-IsValid :
    (m : Machine) (n : ℤ) → pos 0 ≤ℤ n → n ≤ℤ m.res → IsValid m → IsValid (returned m n)
returned-IsValid m n h k v = record {
  total = omega (int_laws, ap pos_part v.total, ap neg_part v.total);
  res_nonneg = omega int_laws;
  free_nonneg = omega int_laws;
}

-- A request that is not negative keeps a machine well-formed, granted or not.
pub alloc-IsValid : (m : Machine) (n : ℤ) → pos 0 ≤ℤ n → IsValid m → IsValid (alloc m n).0
unfolding alloc
alloc-IsValid m n h v = elim (Bool-cases (leb_ℤ n m.free)) [
  | inl fits ↦ rw fits (reserved-IsValid m n h (le_of_leb_ℤ n m.free fits) v)
  | inr over ↦ rw over v
]

-- So does the return of a count that is not negative.
pub free-IsValid : (m : Machine) (n : ℤ) → pos 0 ≤ℤ n → IsValid m → IsValid (free m n).0
unfolding free
free-IsValid m n h v = elim (Bool-cases (leb_ℤ n m.res)) [
  | inl fits ↦ rw fits (returned-IsValid m n h (le_of_leb_ℤ n m.res fits) v)
  | inr over ↦ rw over v
]

-- A granted request that is returned leaves the machine as it was.
pub free-alloc : (m : Machine) (n : ℤ) → IsValid m → n ≤ℤ m.free → (free (alloc m n).0 n).0 ≡ m
free-alloc m n v h =
    rw (alloc_granted m n h, free_granted (reserved m n) n (omega (int_laws, v.res_nonneg)))
      λ i. record m { res = +ℤ_cancel m.res n i; free = +ℤ-ℤ_cancel m.free n i }
