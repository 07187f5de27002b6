-- ===== src/Examples/Addresses.antt =====
-- Runs of src/net/address.rs on the text of addresses.
use cl_async.Base.{ℕ, ◌≡◌, inl, inr, refl, true, List, [], ◌∷◌, map, Result, ok, err, arith}
use cl_async.Net.Address.{IpAddress}
use cl_async.Net.Address.Text.{Text, join, colon}
use cl_async.Net.Address.Compress.Groups.{short}
use cl_async.Net.Address.Display.{words, fmt}
use cl_async.Net.Address.Resolve.{try_from, first_resolved, AddrInfo, ResolveHostnamePreferences}
use cl_async.Net.Address.Resolve.RoundTrip.{try_from-fmt}
use cl_async.Net.Address.Resolve.LoneZero.{try_from-lone_zero}

-- A resolver that knows no host.
abbrev no_hosts : Text → ResolveHostnamePreferences → Result (List AddrInfo) ℕ
no_hosts name pref = err 8

-- 2001:db8::ffab:7.
abbrev documented : List ℕ
documented = 32 ∷ 1 ∷ 13 ∷ 184 ∷ 0 ∷ 0 ∷ 0 ∷ 0 ∷ 0 ∷ 0 ∷ 0 ∷ 0 ∷ 255 ∷ 171 ∷ 0 ∷ 7 ∷ []

documented-words : words documented ≡ 8193 ∷ 3512 ∷ 0 ∷ 0 ∷ 0 ∷ 0 ∷ 65451 ∷ 7 ∷ []
unfolding words
documented-words = refl

try_from-fmt_example :
    try_from true no_hosts (fmt (IpAddress.v6 documented)) ≡ ok (IpAddress.v6 documented)
try_from-fmt_example =
    try_from-fmt true no_hosts (IpAddress.v6 documented)
      (refl, omega arith, inr (inl (rw documented-words (omega arith))))

-- 0:1:2:3:4:5:6:7 without its first word.
abbrev counted : List ℕ
counted = 0 ∷ 1 ∷ 0 ∷ 2 ∷ 0 ∷ 3 ∷ 0 ∷ 4 ∷ 0 ∷ 5 ∷ 0 ∷ 6 ∷ 0 ∷ 7 ∷ []

counted-words : words (0 ∷ 0 ∷ counted) ≡ 0 ∷ 1 ∷ 2 ∷ 3 ∷ 4 ∷ 5 ∷ 6 ∷ 7 ∷ []
unfolding words
counted-words = refl

try_from-lone_zero_example :
    (fmt (IpAddress.v6 (0 ∷ 0 ∷ counted))
      ≡ colon ∷ join colon (map short (words (0 ∷ 0 ∷ counted))))
    × (try_from true no_hosts (fmt (IpAddress.v6 (0 ∷ 0 ∷ counted)))
        ≡ first_resolved true no_hosts (fmt (IpAddress.v6 (0 ∷ 0 ∷ counted))))
try_from-lone_zero_example =
    try_from-lone_zero true no_hosts counted refl (omega arith) (rw counted-words refl)
