-- ===== src/Controller/Lease/Names/Labels.antt =====
-- The names of leases are DNS labels.
use fluidbgoperator.Base.{
  ℕ, zero, suc, ◌+◌, ◌-◌, ◌≤◌, ◌<◌, ◌≡◌, refl, ap, ◌∙◌, Bool, true, false, ◌&&◌, ◌||◌, leb, List,
  [], ◌∷◌, ◌++◌, if◌then◌else◌, arith, Bool-cases, inl, inr, ◌/◌, ◌%◌,
}
use fluidbgoperator.Base.Lists.{length, All, take, length-append, length-take_of_le}
use fluidbgoperator.Base.Text.{Text, is_empty, trim_end, trim_start}
use fluidbgoperator.Sdk.Names.Scoping.{IsDigest, length-hex}
use fluidbgoperator.Sdk.Names.{hex, is_dash, hex_digit}
use fluidbgoperator.Controller.Lease.Names.{
  mapped_char, label_step, label_loop, dns_label_prefix, short_hash, lease_name,
}

abbrev pub is_edge : ℕ → Bool
is_edge b = (leb 48 b && leb b 57) || (leb 97 b && leb b 122)

abbrev pub is_label_char : ℕ → Bool
is_label_char b = is_edge b || is_dash b

abbrev pub Safe : Text → Type 0
Safe = All (λ b. is_label_char b ≡ true)

abbrev pub last : ℕ → Text → ℕ
last x [] = x
last x (y ∷ ys) = last y ys

-- RFC 1123: at most 63 of the characters, the first and the last one alphanumeric.
pub record IsDnsLabel (t : Text) : Type 0 where
  pub first : ℕ
  pub others : Text
  pub parts : t ≡ first ∷ others
  pub short : length t ≤ 63
  pub safe : Safe t
  pub starts : is_edge first ≡ true
  pub ends : is_edge (last first others) ≡ true

Safe-append : (s t : Text) → Safe s → Safe t → Safe (s ++ t)
Safe-append [] t hs ht = ht
Safe-append (x ∷ xs) t hs ht = (hs.0, Safe-append xs t hs.1 ht)

Safe-trim_start : (p : ℕ → Bool) (t : Text) → Safe t → Safe (trim_start p t)
unfolding trim_start
Safe-trim_start p [] h = tt
Safe-trim_start p (x ∷ xs) h = elim (Bool-cases (p x)) [
  | inl cut ↦ rw cut (Safe-trim_start p xs h.1)
  | inr stays ↦ rw stays h
]

Safe-trim_end : (p : ℕ → Bool) (t : Text) → Safe t → Safe (trim_end p t)
unfolding trim_end
Safe-trim_end p [] h = tt
Safe-trim_end p (x ∷ xs) h = elim (Bool-cases (is_empty (trim_end p xs) && p x)) [
  | inl cut ↦ rw cut tt
  | inr stays ↦ rw stays (h.0, Safe-trim_end p xs h.1)
]

length-trim_start_le : (p : ℕ → Bool) (t : Text) → length (trim_start p t) ≤ length t
unfolding trim_start
length-trim_start_le p [] = omega arith
length-trim_start_le p (x ∷ xs) = ground (arith, length-trim_start_le p xs)

length-trim_end_le : (p : ℕ → Bool) (t : Text) → length (trim_end p t) ≤ length t
unfolding trim_end
length-trim_end_le p [] = omega arith
length-trim_end_le p (x ∷ xs) = ground (arith, length-trim_end_le p xs)

Safe-mapped_char : (b : ℕ) → is_label_char (mapped_char b) ≡ true
Safe-mapped_char b = ground arith

length-label_step_le :
    (m n : ℕ) (skipped : Bool) (c : ℕ) (rest : Text)
    → length rest ≤ m - (if skipped then n else n + 1)
    → length (label_step (leb m n) skipped c rest) ≤ m - n
unfolding label_step
length-label_step_le m n skipped c rest h = elim (Bool-cases (leb m n)) [
  | inl full ↦ rw full (omega arith)
  | inr room ↦ rw room (go skipped h (ground (arith, room)))
]
  where
    go :
        (s : Bool)
        → length rest ≤ m - (if s then n else n + 1)
        → n < m
        → length (label_step false s c rest) ≤ m - n
    go true h k = h
    go false h k = omega (arith, h, k)

length-label_loop_le : (m n : ℕ) (d : Bool) (t : Text) → length (label_loop m n d t) ≤ m - n
unfolding label_loop
length-label_loop_le m n d [] = omega arith
length-label_loop_le m n d (x ∷ xs) =
    let skipped = is_dash (mapped_char x) && d in
    length-label_step_le m n skipped (mapped_char x)
      (label_loop m (if skipped then n else n + 1) (is_dash (mapped_char x)) xs)
      (length-label_loop_le m (if skipped then n else n + 1) (is_dash (mapped_char x)) xs)

Safe-label_step :
    (full skipped : Bool) (c : ℕ) (rest : Text)
    → is_label_char c ≡ true
    → Safe rest
    → Safe (label_step full skipped c rest)
unfolding label_step
Safe-label_step true skipped c rest h hs = tt
Safe-label_step false true c rest h hs = hs
Safe-label_step false false c rest h hs = (h, hs)

Safe-label_loop : (m n : ℕ) (d : Bool) (t : Text) → Safe (label_loop m n d t)
unfolding label_loop
Safe-label_loop m n d [] = tt
Safe-label_loop m n d (x ∷ xs) =
    let skipped = is_dash (mapped_char x) && d in
    Safe-label_step (leb m n) skipped (mapped_char x)
      (label_loop m (if skipped then n else n + 1) (is_dash (mapped_char x)) xs)
      (Safe-mapped_char x)
      (Safe-label_loop m (if skipped then n else n + 1) (is_dash (mapped_char x)) xs)

abbrev label_of : Text → ℕ → Text
label_of t m = trim_end is_dash (trim_start is_dash (label_loop m 0 false t))

Safe-dns_label_prefix : (t : Text) (m : ℕ) → Safe (dns_label_prefix t m)
unfolding dns_label_prefix
Safe-dns_label_prefix t m = elim (Bool-cases (is_empty (label_of t m))) [
  | inl blank ↦ rw blank (refl, (refl, (refl, tt)))
  | inr real ↦ rw real (
      Safe-trim_end is_dash (trim_start is_dash (label_loop m 0 false t))
        (Safe-trim_start is_dash (label_loop m 0 false t) (Safe-label_loop m 0 false t)))
]

length-dns_label_prefix_le : (t : Text) (m : ℕ) → 3 ≤ m → length (dns_label_prefix t m) ≤ m
unfolding dns_label_prefix
length-dns_label_prefix_le t m h =
    let loop = label_loop m 0 false t in
    ground (
      arith,
      h,
      length-trim_end_le is_dash (trim_start is_dash loop),
      length-trim_start_le is_dash loop,
      length-label_loop_le m 0 false t,
    )

hex_digit_edge : (n : ℕ) → n < 16 → is_edge (hex_digit n) ≡ true
hex_digit_edge n h = ground arith

hex-All : (bs : List ℕ) → All (λ b. b < 256) bs → All (λ b. is_edge b ≡ true) (hex bs)
unfolding hex
hex-All [] h = tt
hex-All (b ∷ bs) h = (
  hex_digit_edge (b / 16) (omega (arith, h.0)),
  (hex_digit_edge (b % 16) (omega arith), hex-All bs h.1),
)

take-All : (P : ℕ → Type 0) (n : ℕ) (bs : List ℕ) → All P bs → All P (take n bs)
unfolding take
take-All P zero bs h = tt
take-All P (suc n) [] h = tt
take-All P (suc n) (b ∷ bs) h = (h.0, take-All P n bs h.1)

Safe-edges : (t : Text) → All (λ b. is_edge b ≡ true) t → Safe t
Safe-edges [] h = tt
Safe-edges (x ∷ xs) h = (ground (arith, h.0), Safe-edges xs h.1)

last-append : (x : ℕ) (s : Text) (y : ℕ) (t : Text) → last x (s ++ (y ∷ t)) ≡ last y t
last-append x [] y t = refl
last-append x (z ∷ zs) y t = last-append z zs y t

last-edge :
    (x : ℕ) (t : Text) → 0 < length t → All (λ b. is_edge b ≡ true) t → is_edge (last x t) ≡ true
last-edge x [] k h = absurd (omega arith)
last-edge x (y ∷ []) k h = h.0
last-edge x (y ∷ (z ∷ zs)) k h = last-edge y (z ∷ zs) (omega arith) h.1

module _ (digest : Text → List ℕ) (sound : IsDigest digest) where
  length-short_hash : (t : Text) → length (short_hash digest t) ≡ 10
  unfolding short_hash
  length-short_hash t = omega (
    arith,
    length-hex (take 5 (digest t)),
    length-take_of_le 5 (digest t) (omega (arith, sound.size t)),
  )

  short_hash-edges : (t : Text) → All (λ b. is_edge b ≡ true) (short_hash digest t)
  unfolding short_hash
  short_hash-edges t =
      hex-All (take 5 (digest t)) (take-All (λ b. b < 256) 5 (digest t) (sound.bytes t))

  -- Whatever the name of the deployment is, the name of its lease is a DNS label, for a prefix of at
  -- most 48 of the characters of a label that starts with an alphanumeric one.
  pub lease_name-IsDnsLabel :
      (x : ℕ) (xs name discriminator : Text)
      → is_edge x ≡ true
      → Safe (x ∷ xs)
      → length (x ∷ xs) ≤ 48
      → IsDnsLabel (lease_name digest (x ∷ xs) name discriminator)
  unfolding lease_name
  lease_name-IsDnsLabel x xs name discriminator edge safe short =
      let suffix = short_hash digest discriminator in
      let size = length-short_hash discriminator in
      let room = 63 - (length (x ∷ xs) + length suffix + 2) in
      let label = dns_label_prefix name room in
      let edges = short_hash-edges discriminator in
      record {
        first = x;
        others = xs ++ (b'-' ∷ (label ++ (b'-' ∷ suffix)));
        parts = refl;
        short = omega (
          arith,
          size,
          short,
          length-append xs (b'-' ∷ (label ++ (b'-' ∷ suffix))),
          length-append label (b'-' ∷ suffix),
          length-dns_label_prefix_le name room (omega (arith, size, short)),
        );
        safe = Safe-append (x ∷ xs) (b'-' ∷ (label ++ (b'-' ∷ suffix))) safe (
          refl,
          Safe-append label (b'-' ∷ suffix) (Safe-dns_label_prefix name room)
              (refl, Safe-edges suffix edges),
        );
        starts = edge;
        ends =
            ap is_edge (
              last-append x xs b'-' (label ++ (b'-' ∷ suffix)) ∙ last-append b'-' label b'-' suffix)
            ∙ last-edge b'-' suffix (omega (arith, size)) edges;
      }
