-- ===== src/Configuration/Origins.antt =====
-- The origins of config/configuration.ts and modules/websocket/websocket.gateway.ts.
use aalam_security_back.Common.{
  ◌≡◌, refl, ap, ◌∙◌, Bool, true, some, List, [], ◌∷◌, ◌++◌, ◌==◌, ◌&&◌, not, all, any, map, keep,
  arith,
}
use aalam_security_back.Schema.{Text, text_eq}
use aalam_security_back.Venues.{trim}
use aalam_security_back.Venues.Readable.{is_black, trim_black}
use aalam_security_back.Configuration.{
  is_filled, split_commas, origins_of, parse_allowed_origins, websocket_origin_check,
}

-- An address has no comma and no white space in it, and is not empty.
abbrev pub is_address : Text → Bool
is_address o = is_filled o && all (λ c. not (c == b',') && is_black c) o

-- ALLOWED_ORIGINS as it is written for a first address and others.
abbrev pub joined : Text → List Text → Text
joined o [] = o
joined o (p ∷ ps) = o ++ (b',' ∷ joined p ps)

abbrev is_plain : Text → Bool
is_plain o = all (λ c. not (c == b',') && is_black c) o

split_last : (o : Text) → is_plain o ≡ true → split_commas o ≡ o ∷ []
split_last [] h = refl
split_last (c ∷ cs) h = ground (arith, split_last cs)

split_first :
    (o rest : Text) → is_plain o ≡ true → split_commas (o ++ (b',' ∷ rest)) ≡ o ∷ split_commas rest
split_first [] rest h = refl
split_first (c ∷ cs) rest h = ground (arith, split_first cs rest)

plain_of_address : (o : Text) → is_address o ≡ true → is_plain o ≡ true
plain_of_address o h = ground arith

black_of_plain : (o : Text) → is_plain o ≡ true → all is_black o ≡ true
black_of_plain [] h = refl
black_of_plain (c ∷ cs) h = ground (arith, black_of_plain cs)

split-joined :
    (o : Text) (ps : List Text)
    → is_address o ≡ true
    → all is_address ps ≡ true
    → split_commas (joined o ps) ≡ o ∷ ps
split-joined o [] h k = split_last o (plain_of_address o h)
split-joined o (p ∷ ps) h k =
    split_first o (joined p ps) (plain_of_address o h)
    ∙ ap (λ parts. o ∷ parts) (split-joined p ps (ground arith) (ground arith))

filters : (ps : List Text) → all is_address ps ≡ true → keep is_filled (map trim ps) ≡ ps
filters [] h = refl
filters (p ∷ ps) h =
    rw (trim_black p (black_of_plain p (plain_of_address p (ground arith))))
      (ground (arith, filters ps))

origins_of-joined :
    (o : Text) (ps : List Text)
    → is_address o ≡ true
    → all is_address ps ≡ true
    → origins_of (joined o ps) ≡ o ∷ ps
unfolding origins_of
origins_of-joined o ps h k =
    ap (λ parts. keep is_filled (map trim parts)) (split-joined o ps h k)
    ∙ filters (o ∷ ps) (ground arith)

parsed : (raw : Text) → is_filled raw ≡ true → parse_allowed_origins (some raw) ≡ origins_of raw
unfolding parse_allowed_origins
parsed [] h = absurd (ground arith)
parsed (c ∷ cs) h = refl

joined-is_filled :
    (o : Text) (ps : List Text) → is_address o ≡ true → is_filled (joined o ps) ≡ true
joined-is_filled [] ps h = absurd (ground arith)
joined-is_filled (c ∷ cs) [] h = refl
joined-is_filled (c ∷ cs) (p ∷ ps) h = refl

admits_listed :
    (raw origin : Text)
    → is_filled origin ≡ true
    → websocket_origin_check (some raw) (some origin) ≡ any (λ o. text_eq o origin) (origins_of raw)
unfolding websocket_origin_check
admits_listed raw [] h = absurd (ground arith)
admits_listed raw (c ∷ cs) h = refl

-- Addresses that are written with commas between them are the list that CORS gets, and the websocket's
-- handshake admits these origins and no other. An address is not empty and has no comma and no white
-- space; the origin is not empty.
pub parse_allowed_origins-joined :
    (o : Text) (ps : List Text) (origin : Text)
    → is_address o ≡ true
    → all is_address ps ≡ true
    → is_filled origin ≡ true
    → (parse_allowed_origins (some (joined o ps)) ≡ o ∷ ps)
      × (websocket_origin_check (some (joined o ps)) (some origin)
          ≡ any (λ p. text_eq p origin) (o ∷ ps))
parse_allowed_origins-joined o ps origin h k filled = (
  parsed (joined o ps) (joined-is_filled o ps h) ∙ origins_of-joined o ps h k,
  admits_listed (joined o ps) origin filled
      ∙ ap (any (λ p. text_eq p origin)) (origins_of-joined o ps h k),
)
