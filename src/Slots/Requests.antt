-- ===== src/Slots/Requests.antt =====
-- The block production that the slot watcher asks for, read off its calls.
use solana_exporter.Base.{
  ℕ, suc, ℤ, pos, ◌+ℤ◌, +ℤ_parts, ◌≤ℤ◌, leb_ℤ, ◌&&◌, Bool, false, ◌≡◌, refl, arith, List, [], ◌∷◌,
  ◌++◌, Option, none, some, filter_map, filter_map-append, if◌then◌else◌,
}
use solana_exporter.Slots.State.{
  Call, set_gauge, set_block_size, add_counter, delete_counter, get_block_production, get_block,
  get_inflation_reward, go_clean_epoch,
}

module _ {F : Type 0} where
  abbrev pub requested_range : Call F → Option (ℤ × ℤ)
  requested_range (set_gauge g x) = none
  requested_range (set_block_size labels x) = none
  requested_range (add_counter counter labels x) = none
  requested_range (delete_counter counter labels) = none
  requested_range (get_block_production from to) = some (from, to)
  requested_range (get_block slot details) = none
  requested_range (get_inflation_reward addresses epoch) = none
  requested_range (go_clean_epoch epoch) = none

  -- The slot ranges, in the order in which they are asked for.
  abbrev pub requests : List (Call F) → List (ℤ × ℤ)
  requests = filter_map requested_range

  pub requests-append : (es fs : List (Call F)) → requests (es ++ fs) ≡ requests es ++ requests fs
  requests-append = filter_map-append requested_range

-- Each range begins one slot after the end of the one before it, the first one slot after `mark`, and no
-- range ends before the one before it.
abbrev pub IsChain : ℤ → List (ℤ × ℤ) → Type 0
IsChain mark [] = Unit
IsChain mark ((from, to) ∷ ranges) = (from ≡ mark +ℤ pos 1) × (mark ≤ℤ to) × IsChain to ranges

-- The last slot of the last range, or `mark` if there is none.
abbrev pub chain_end : ℤ → List (ℤ × ℤ) → ℤ
chain_end mark [] = mark
chain_end mark ((from, to) ∷ ranges) = chain_end to ranges

pub IsChain-append :
    (mark : ℤ) (xs ys : List (ℤ × ℤ))
    → IsChain mark xs
    → IsChain (chain_end mark xs) ys
    → IsChain mark (xs ++ ys)
IsChain-append mark [] ys hx hy = hy
IsChain-append mark ((from, to) ∷ xs) ys (e, up, hx) hy = (e, up, IsChain-append to xs ys hx hy)

pub chain_end-append :
    (mark : ℤ) (xs ys : List (ℤ × ℤ)) → chain_end mark (xs ++ ys) ≡ chain_end (chain_end mark xs) ys
chain_end-append mark [] ys = refl
chain_end-append mark ((from, to) ∷ xs) ys = chain_end-append to xs ys

-- Whether a slot is between two slots, both counted.
abbrev pub is_in : ℤ → ℤ → ℤ → Bool
is_in slot from to = leb_ℤ from slot && leb_ℤ slot to

-- In how many of the ranges a slot is.
abbrev pub times_asked : ℤ → List (ℤ × ℤ) → ℕ
times_asked slot [] = 0
times_asked slot ((from, to) ∷ ranges) =
    let rest = times_asked slot ranges in if is_in slot from to then suc rest else rest

chain_end-IsChain :
    (mark : ℤ) (ranges : List (ℤ × ℤ)) → IsChain mark ranges → mark ≤ℤ chain_end mark ranges
chain_end-IsChain mark [] h = omega arith
chain_end-IsChain mark ((from, to) ∷ ranges) (e, up, rest) =
    let ih = chain_end-IsChain to ranges rest in omega arith

abbrev pub once_if : Bool → ℕ
once_if c = if c then 1 else 0

asked_none : (slot mark : ℤ) → is_in slot (mark +ℤ pos 1) mark ≡ false
asked_none slot mark = let next = +ℤ_parts mark (pos 1) in ground arith

asked_in_parts :
    (slot mark to end : ℤ)
    → mark ≤ℤ to
    → to ≤ℤ end
    → (if is_in slot (mark +ℤ pos 1) to
        then suc (once_if (is_in slot (to +ℤ pos 1) end))
        else once_if (is_in slot (to +ℤ pos 1) end))
      ≡ once_if (is_in slot (mark +ℤ pos 1) end)
asked_in_parts slot mark to end up on =
    let next = +ℤ_parts mark (pos 1) in let later = +ℤ_parts to (pos 1) in ground arith

-- The ranges of a chain hold each slot after `mark`, up to their end, once, and no other slot.
pub times_asked-IsChain :
    (slot mark : ℤ) (ranges : List (ℤ × ℤ))
    → IsChain mark ranges
    → times_asked slot ranges ≡ once_if (is_in slot (mark +ℤ pos 1) (chain_end mark ranges))
times_asked-IsChain slot mark [] h = rw (asked_none slot mark) refl
times_asked-IsChain slot mark ((from, to) ∷ ranges) (e, up, rest) =
    let ih = times_asked-IsChain slot to ranges rest in
    let on = chain_end-IsChain to ranges rest in
    rw (e, ih) (asked_in_parts slot mark to (chain_end to ranges) up on)
