-- ===== src/Shadow/Ranges/Ends.antt =====
-- The loop test of the algorithms, `first != last`: a walk meets the end of its range after as many
-- steps as the view has bytes, and not before.
use sym_cc_modified.Base.{ℕ, zero, suc, ◌≡◌, ◌≢◌, ◌<◌, arith, refl, ◌∙◌, word_size, add64}
use sym_cc_modified.Shadow.{Pages, ReadIterator, read_begin, read_next}

module _ {E : Type 0} (pages : Pages E) where
  pub walk : ℕ → ReadIterator → ReadIterator
  walk zero it = it
  walk (suc n) it = walk n (read_next pages it)

  address-read_next : (it : ReadIterator) → (read_next pages it).address ≡ add64 it.address 1
  unfolding read_next
  address-read_next it = refl

  address-walk :
      (n : ℕ) (it : ReadIterator)
      → it.address < word_size
      → (walk n it).address ≡ add64 it.address n
  unfolding walk
  address-walk zero it h = omega arith
  address-walk (suc n) it h =
      address-walk n (read_next pages it) (omega (arith, address-read_next it))
      ∙ omega (arith, address-read_next it)

  -- A walk with a read iterator from the begin of a view of `n` bytes reaches the address of the
  -- view's end after `n` steps, modulo the size of the address space, and not before.
  pub walk-end :
      (a n : ℕ)
      → a < word_size
      → n < word_size
      → ((walk n (read_begin pages a)).address ≡ (read_begin pages (add64 a n)).address)
        × ((i : ℕ)
            → i < n
            → (walk i (read_begin pages a)).address ≢ (read_begin pages (add64 a n)).address)
  unfolding read_begin
  walk-end a n p q = (
    address-walk n (read_begin pages a) p,
    λ i h e. omega (arith, e, address-walk i (read_begin pages a) p),
  )
