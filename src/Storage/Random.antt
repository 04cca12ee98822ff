-- ===== src/Storage/Random.antt =====
-- The sampling generator of crates/falcon-storage/src/cache.rs, xorshift64*.
use Prim.Native.Nat.{bit_xor}
use falcon_cache.Base.{ℕ, ◌*◌, ◌/◌, ◌^◌, wrapped, mul64}

-- `next_rand`: the new state, and the number drawn. `x << 25` drops the bits above 64.
unfoldable pub next_rand : ℕ → ℕ × ℕ
next_rand state =
    let x1 = bit_xor state (state / 2 ^ 12) in
    let x2 = bit_xor x1 (wrapped (x1 * 2 ^ 25)) in
    let x3 = bit_xor x2 (x2 / 2 ^ 27) in (x3, mul64 x3 0x2545F4914F6CDD1D)
