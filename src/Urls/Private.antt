-- ===== src/Urls/Private.antt =====
-- hermes_agent_a2a/security.py: which IPv4 addresses the table of private networks covers.
use hermes_agent_a2a.Prelude.{ℕ, ◌≡◌, Bool, ◌&&◌, ◌||◌, arith, leb, ltb}
use hermes_agent_a2a.Urls.{v4, quad, private_cidrs, is_in_any}

-- from ≤ n < to
abbrev pub in_range : ℕ → ℕ → ℕ → Bool
in_range from to n = leb from n && ltb n to

-- The ranges that the docstrings name: 127.x, 10.x, 172.16 to 172.31, 192.168.x and 169.254.x.
abbrev pub in_private_range : ℕ → Bool
in_private_range n =
    in_range (quad 127 0) (quad 128 0) n
    || in_range (quad 10 0) (quad 11 0) n
    || in_range (quad 172 16) (quad 172 32) n
    || in_range (quad 192 168) (quad 192 169) n
    || in_range (quad 169 254) (quad 169 255) n

-- An IPv4 address is in one of the private networks exactly if it is in one of the ranges 127.x.x.x,
-- 10.x.x.x, 172.16.x.x to 172.31.x.x, 192.168.x.x and 169.254.x.x.
pub private_v4_exact : (n : ℕ) → is_in_any (v4 n) private_cidrs ≡ in_private_range n
unfolding is_in_any
private_v4_exact n = ground arith
