-- ===== src/Tests.antt =====
-- Sample data for the examples: a digest, payloads and releases.
mod Hashes
mod Releases
mod Verdicts
mod Ledgers
mod Stores
mod Attestations
mod Queues
mod Guards
mod Orders
mod Tamper
mod Placements
mod Bundles
use playbook_redline.Base.{
  ℕ, zero, suc, ◌+◌, ◌*◌, ◌/◌, ◌%◌, String, List, [], ◌∷◌, append, get_elem?, none, some,
}

abbrev numerals : List String
numerals = "0" ∷ "1" ∷ "2" ∷ "3" ∷ "4" ∷ "5" ∷ "6" ∷ "7" ∷ "8" ∷ "9" ∷ []

abbrev digit : ℕ → String
digit n = elim (get_elem? numerals n) [ none ↦ "" | some s ↦ s ]

abbrev digits : ℕ → ℕ → String
digits zero n = ""
digits (suc k) n = append (digits k (n / 10)) (digit (n % 10))

abbrev checksum : ℕ → List ℕ → ℕ
checksum h [] = h
checksum h (c ∷ r) = checksum ((h * 31 + c) % 1000000007) r

-- A checksum in place of SHA-256.
abbrev pub toy_digest : List ℕ → String
toy_digest text = digits 10 (checksum 7 text)
