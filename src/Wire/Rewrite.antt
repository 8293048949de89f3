-- ===== src/Wire/Rewrite.antt =====
-- Writing the flags byte of a frame in place, as src/meshtastic_router.c does.
use meshtastic_zephyr.Prelude.{ℕ, ◌≡◌, List, ◌∷◌, some, arith, set}
use meshtastic_zephyr.Wire.{Header, parse_header}

pub parse_header-set :
    (buf : List ℕ) (hdr : Header) (flags : ℕ)
    → parse_header buf ≡ some hdr
    → parse_header (set buf 12 flags) ≡ some (record hdr { flags = flags })
unfolding parse_header
parse_header-set (d0 ∷ d1 ∷ d2 ∷ d3 ∷ s0 ∷ s1 ∷ s2 ∷ s3 ∷ i0 ∷ i1 ∷ i2 ∷ i3 ∷ f ∷ c ∷ n ∷ r ∷ rest)
      hdr flags e =
    ground arith
parse_header-set _ hdr flags e = absurd (ground arith)
