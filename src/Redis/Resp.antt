-- ===== src/Redis/Resp.antt =====
-- The Redis serialization protocol as a server reads it: the reference that the client's requests
-- are held to. A request is `*<n>\r\n` and n bulk strings `$<length>\r\n<bytes>\r\n`.
use seed_core.Prelude.{
  ℕ, zero, suc, ◌≡◌, refl, ==_refl, ◌&&◌, List, [], ◌∷◌, ◌++◌, Option, none, some, arith, Bytes,
  length, take, drop, leb, ◌==◌, if◌then◌else◌, append_assoc, take-append, drop-append,
  length-append,
}
use seed_core.Prelude.Decimal.{decimal, read_digits, read_digits-decimal}

abbrev pub crlf : Bytes
crlf = 13 ∷ 10 ∷ []

abbrev pub bulk : Bytes → Bytes
bulk a = b'$' ∷ decimal (length a) ++ (crlf ++ (a ++ crlf))

unfoldable pub bulks : List Bytes → Bytes
bulks [] = []
bulks (a ∷ args) = bulk a ++ bulks args

-- The request with the arguments `args`.
unfoldable pub encode : List Bytes → Bytes
unfolding bulks
encode args = b'*' ∷ decimal (length args) ++ (crlf ++ bulks args)

strip_crlf : Bytes → Option Bytes
strip_crlf [] = none
strip_crlf (a ∷ []) = none
strip_crlf (a ∷ b ∷ s) = if (a == 13) && (b == 10) then some s else none

line_end : ℕ × Bytes → Option (ℕ × Bytes)
unfolding strip_crlf
line_end (n, t) = elim (strip_crlf t) [ none ↦ none | some u ↦ some (n, u) ]

-- `<mark><number>\r\n`.
read_header : ℕ → Bytes → Option (ℕ × Bytes)
unfolding line_end
read_header mark [] = none
read_header mark (c ∷ s) = if c == mark then line_end (read_digits 0 s) else none

-- The body of a bulk string, once its length is known.
read_body : ℕ → Bytes → Option (Bytes × Bytes)
unfolding strip_crlf
read_body n t =
    if leb n (length t)
    then elim (strip_crlf (drop n t)) [ none ↦ none | some u ↦ some (take n t, u) ]
    else none

read_bulk : Bytes → Option (Bytes × Bytes)
unfolding read_header read_body
read_bulk s = elim (read_header b'$' s) [ none ↦ none | some (n, t) ↦ read_body n t ]

read_bulks : ℕ → Bytes → Option (List Bytes × Bytes)
unfolding read_bulk
read_bulks zero s = some ([], s)
read_bulks (suc n) s = elim (read_bulk s) [
  | none ↦ none
  | some (a, t) ↦ elim (read_bulks n t) [ none ↦ none | some (args, u) ↦ some (a ∷ args, u) ]
]

-- One request, and what follows it in the stream.
unfoldable pub decode : Bytes → Option (List Bytes × Bytes)
unfolding read_header read_bulks
decode s = elim (read_header b'*' s) [ none ↦ none | some (n, t) ↦ read_bulks n t ]

read_header-decimal :
    (mark n : ℕ) (s : Bytes) → read_header mark (mark ∷ (decimal n ++ (crlf ++ s))) ≡ some (n, s)
unfolding read_header
read_header-decimal mark n s = rw (==_refl mark, read_digits-decimal n (crlf ++ s) refl) refl

read_body-append : (a s : Bytes) → read_body (length a) (a ++ (crlf ++ s)) ≡ some (a, s)
unfolding read_body
read_body-append a s =
    rw
      (
        length-append a (crlf ++ s),
        drop-append a (crlf ++ s) (length a) refl,
        take-append a (crlf ++ s) (length a) refl,
      )
      (ground arith)

read_bulk-bulk : (a s : Bytes) → read_bulk (bulk a ++ s) ≡ some (a, s)
unfolding read_bulk
read_bulk-bulk a s =
    rw e (
      rw (read_header-decimal b'$' (length a) (a ++ (crlf ++ s)), read_bulk) (read_body-append a s))
  where
    e : bulk a ++ s ≡ b'$' ∷ (decimal (length a) ++ (crlf ++ (a ++ (crlf ++ s))))
    e = simp append_assoc

read_bulks-step :
    (a : Bytes) (args : List Bytes) (n : ℕ) (s t u : Bytes)
    → read_bulk s ≡ some (a, t)
    → read_bulks n t ≡ some (args, u)
    → read_bulks (suc n) s ≡ some (a ∷ args, u)
unfolding read_bulks
read_bulks-step a args n s t u h k = ground arith

read_bulks-bulks :
    (args : List Bytes) (s : Bytes) → read_bulks (length args) (bulks args ++ s) ≡ some (args, s)
unfolding bulks
read_bulks-bulks [] s = unfold read_bulks in refl
read_bulks-bulks (a ∷ args) s =
    read_bulks-step a args (length args) _ (bulks args ++ s) s
      (rw (append_assoc (bulk a) (bulks args) s) (read_bulk-bulk a (bulks args ++ s)))
      (read_bulks-bulks args s)

-- A server reads every encoded request back, and stops behind it.
pub decode-encode : (args : List Bytes) (s : Bytes) → decode (encode args ++ s) ≡ some (args, s)
unfolding decode encode
decode-encode args s = rw e (
    rw (read_header-decimal b'*' (length args) (bulks args ++ s), decode) (read_bulks-bulks args s))
  where
    e : encode args ++ s ≡ b'*' ∷ (decimal (length args) ++ (crlf ++ (bulks args ++ s)))
    e = simp append_assoc
