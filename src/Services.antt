-- ===== src/Services.antt =====
-- What the program calls and does not implement: the Prisma client, the Redis client, the
-- Socket.IO server, the Expo push service, the JWT, bcrypt and crypto libraries. The definitions take a
-- `Services` as a parameter; `Documented` states the behaviour that the code relies on.
use aalam_security_back.Common.{
  ℕ, ◌≡◌, Bool, true, false, Option, none, some, List, [], ◌∷◌, if◌then◌else◌, ◌==◌, keep, any,
  take, drop,
}
use aalam_security_back.Schema.{Text}
use aalam_security_back.Rows.{
  find, count, set_first, set_all, drop_all, sort_by, dedupe, Entry, get, del,
}

-- The rooms of the gateway's namespace.
pub data Room : Type 0 where
  admin_room operators on_shift_room : Room
  operator_room user_room : ℕ → Room

abbrev pub room_eq : Room → Room → Bool
room_eq admin_room admin_room = true
room_eq operators operators = true
room_eq on_shift_room on_shift_room = true
room_eq (operator_room a) (operator_room b) = a == b
room_eq (user_room a) (user_room b) = a == b
room_eq _ _ = false

-- A connected client: `client.data.user.id`, the rooms that it has joined, and the instants of
-- its two timers, which `disconnect` clears.
pub record Socket : Type 0 where
  pub user_id : ℕ
  pub rooms : List Room
  pub warn_at : Option ℕ
  pub kill_at : Option ℕ

abbrev pub is_in : Room → Socket → Bool
is_in r s = any (room_eq r) s.rooms

-- A ticket of Expo's answer, as far as the program reads it.
pub data Ticket : Type 0 where
  delivered device_not_registered other_error : Ticket

-- The payload of a verified access token; `exp` is in seconds.
pub record JwtPayload : Type 0 where
  pub sub : ℕ
  pub exp : Option ℕ

pub data ExpoReply : Type 0 where
  unavailable : ExpoReply
  tickets : List Ticket → ExpoReply

pub record Services : Type 1 where
  -- Prisma, one table at a time: findFirst and findUnique, findMany, findMany with orderBy, skip
  -- and take, with orderBy alone, with distinct, count, update with the new row (`none` is the error P2025), updateMany, deleteMany.
  pub find_first : {Row : Type 0} → (Row → Bool) → List Row → Option Row
  pub find_many : {Row : Type 0} → (Row → Bool) → List Row → List Row
  pub find_page : {Row : Type 0} → (Row → Bool) → (Row → Row → Bool) → ℕ → ℕ → List Row → List Row
  pub find_sorted : {Row : Type 0} → (Row → Bool) → (Row → Row → Bool) → List Row → List Row
  pub count_rows : {Row : Type 0} → (Row → Bool) → List Row → ℕ
  pub update : {Row : Type 0} → (Row → Bool) → (Row → Row) → List Row → Option (Row × List Row)
  pub find_distinct : {Row : Type 0} → (Row → Bool) → (Row → Row → Bool) → List Row → List Row
  pub update_many : {Row : Type 0} → (Row → Bool) → (Row → Row) → List Row → List Row
  pub delete_many : {Row : Type 0} → (Row → Bool) → List Row → List Row
  -- Redis: GET, SET with EX, SET with EX and NX (`none` if the key is there), and DEL.
  pub redis_get : {K V : Type 0} → (K → Bool) → ℕ → List (Entry K V) → Option V
  pub redis_set : {K V : Type 0} → (K → Bool) → Entry K V → List (Entry K V) → List (Entry K V)
  pub redis_set_nx :
      {K V : Type 0} → (K → Bool) → ℕ → Entry K V → List (Entry K V) → Option (List (Entry K V))
  pub redis_del : {K V : Type 0} → (K → Bool) → List (Entry K V) → List (Entry K V)
  -- Socket.IO: `in(room).socketsJoin(r)`, `socketsLeave(r)`, `fetchSockets()` and
  -- `in(rooms).disconnectSockets(true)`.
  pub sockets_join : Room → Room → List Socket → List Socket
  pub sockets_leave : Room → Room → List Socket → List Socket
  pub fetch_sockets : Room → List Socket → List Socket
  pub disconnect_sockets : List Room → List Socket → List Socket
  -- Expo's answer to a batch of device tokens, at an instant.
  pub expo : ℕ → List ℕ → ExpoReply
  -- `jwtService.verify` of an access token at an instant; `none` is its exception.
  pub verify_access : ℕ → ℕ → Option JwtPayload
  -- SHA-256 of a token, and `bcrypt.hash`, salted by a number drawn for it.
  pub sha256 : ℕ → ℕ
  pub bcrypt_hash : ℕ → Text → Text
  -- The nth value of `crypto.randomBytes(32).toString('hex')`.
  pub random_hex : ℕ → Text
  -- The nth identifier drawn, `crypto.randomUUID()` or `@default(uuid())`.
  pub uuid : ℕ → ℕ

abbrev pub page : {Row : Type 0} → (Row → Bool) → (Row → Row → Bool) → ℕ → ℕ → List Row → List Row
page p before skip limit t = take limit (drop skip (sort_by before (keep p t)))

abbrev pub update_one :
    {Row : Type 0} → (Row → Bool) → (Row → Row) → List Row → Option (Row × List Row)
update_one p f t = elim (find p t) [ none ↦ none | some r ↦ some (f r, set_first p f t) ]

abbrev pub distinct : {Row : Type 0} → (Row → Bool) → (Row → Row → Bool) → List Row → List Row
distinct p same t = dedupe same (keep p t)

abbrev pub set_nx :
    {K V : Type 0} → (K → Bool) → ℕ → Entry K V → List (Entry K V) → Option (List (Entry K V))
set_nx at now e es = elim (get at now es) [ none ↦ some (e ∷ del at es) | some _ ↦ none ]

abbrev pub join : Room → Room → List Socket → List Socket
join at r [] = []
join at r (s ∷ ss) = (if is_in at s then record s { rooms = r ∷ s.rooms } else s) ∷ join at r ss

abbrev pub leave : Room → Room → List Socket → List Socket
leave at r [] = []
leave at r (s ∷ ss) =
    (if is_in at s then record s { rooms = drop_all (room_eq r) s.rooms } else s) ∷ leave at r ss

abbrev pub disconnect : List Room → List Socket → List Socket
disconnect rooms ss = drop_all (λ s. any (λ r. is_in r s) rooms) ss

pub record Documented (s : Services) : Type 1 where
  pub find_first_lem : {Row : Type 0} (p : Row → Bool) (t : List Row) → s.find_first p t ≡ find p t
  pub find_many_lem : {Row : Type 0} (p : Row → Bool) (t : List Row) → s.find_many p t ≡ keep p t
  pub find_page_lem :
      {Row : Type 0} (p : Row → Bool) (before : Row → Row → Bool) (skip limit : ℕ) (t : List Row)
      → s.find_page p before skip limit t ≡ page p before skip limit t
  pub find_sorted_lem :
      {Row : Type 0} (p : Row → Bool) (before : Row → Row → Bool) (t : List Row)
      → s.find_sorted p before t ≡ sort_by before (keep p t)
  pub count_lem : {Row : Type 0} (p : Row → Bool) (t : List Row) → s.count_rows p t ≡ count p t
  pub update_lem :
      {Row : Type 0} (p : Row → Bool) (f : Row → Row) (t : List Row)
      → s.update p f t ≡ update_one p f t
  pub find_distinct_lem :
      {Row : Type 0} (p : Row → Bool) (same : Row → Row → Bool) (t : List Row)
      → s.find_distinct p same t ≡ distinct p same t
  pub update_many_lem :
      {Row : Type 0} (p : Row → Bool) (f : Row → Row) (t : List Row)
      → s.update_many p f t ≡ set_all p f t
  pub delete_many_lem :
      {Row : Type 0} (p : Row → Bool) (t : List Row) → s.delete_many p t ≡ drop_all p t
  pub get_lem :
      {K V : Type 0} (at : K → Bool) (now : ℕ) (es : List (Entry K V))
      → s.redis_get at now es ≡ get at now es
  pub set_lem :
      {K V : Type 0} (at : K → Bool) (e : Entry K V) (es : List (Entry K V))
      → s.redis_set at e es ≡ e ∷ del at es
  pub set_nx_lem :
      {K V : Type 0} (at : K → Bool) (now : ℕ) (e : Entry K V) (es : List (Entry K V))
      → s.redis_set_nx at now e es ≡ set_nx at now e es
  pub del_lem :
      {K V : Type 0} (at : K → Bool) (es : List (Entry K V)) → s.redis_del at es ≡ del at es
  pub join_lem : (at r : Room) (ss : List Socket) → s.sockets_join at r ss ≡ join at r ss
  pub leave_lem : (at r : Room) (ss : List Socket) → s.sockets_leave at r ss ≡ leave at r ss
  pub fetch_lem : (at : Room) (ss : List Socket) → s.fetch_sockets at ss ≡ keep (is_in at) ss
  pub disconnect_lem :
      (rooms : List Room) (ss : List Socket) → s.disconnect_sockets rooms ss ≡ disconnect rooms ss
  -- No two tokens in use have one hash.
  pub sha256_injective : (a b : ℕ) → s.sha256 a ≡ s.sha256 b → a ≡ b
  -- No identifier is drawn twice.
  pub uuid_injective : (m n : ℕ) → s.uuid m ≡ s.uuid n → m ≡ n

-- Services that compute, and meet what is documented.
abbrev pub reference :
    (ℕ → List ℕ → ExpoReply)
    → (ℕ → ℕ → Option JwtPayload)
    → (ℕ → ℕ)
    → (ℕ → Text → Text)
    → (ℕ → Text)
    → (ℕ → ℕ)
    → Services
reference expo verify_access sha256 bcrypt_hash random_hex uuid = record {
  find_first = find;
  find_many = keep;
  find_page = page;
  find_sorted = λ p before t. sort_by before (keep p t);
  count_rows = count;
  update = update_one;
  find_distinct = distinct;
  update_many = set_all;
  delete_many = drop_all;
  redis_get = get;
  redis_set = λ at e es. e ∷ del at es;
  redis_set_nx = set_nx;
  redis_del = del;
  sockets_join = join;
  sockets_leave = leave;
  fetch_sockets = λ at ss. keep (is_in at) ss;
  disconnect_sockets = disconnect;
  expo = expo;
  verify_access = verify_access;
  sha256 = sha256;
  bcrypt_hash = bcrypt_hash;
  random_hex = random_hex;
  uuid = uuid;
}

-- The computing services with the same answers to everything else.
abbrev pub computing : Services → Services
computing s = reference s.expo s.verify_access s.sha256 s.bcrypt_hash s.random_hex s.uuid

-- Services that behave as documented are the computing ones: a proof may put those in.
pub services-eq : {s : Services} → Documented s → s ≡ computing s
services-eq {s} d = λ i. record {
  find_first = λ p t. d.find_first_lem p t i;
  find_many = λ p t. d.find_many_lem p t i;
  find_page = λ p before skip limit t. d.find_page_lem p before skip limit t i;
  find_sorted = λ p before t. d.find_sorted_lem p before t i;
  count_rows = λ p t. d.count_lem p t i;
  update = λ p f t. d.update_lem p f t i;
  find_distinct = λ p same t. d.find_distinct_lem p same t i;
  update_many = λ p f t. d.update_many_lem p f t i;
  delete_many = λ p t. d.delete_many_lem p t i;
  redis_get = λ at now es. d.get_lem at now es i;
  redis_set = λ at e es. d.set_lem at e es i;
  redis_set_nx = λ at now e es. d.set_nx_lem at now e es i;
  redis_del = λ at es. d.del_lem at es i;
  sockets_join = λ at r ss. d.join_lem at r ss i;
  sockets_leave = λ at r ss. d.leave_lem at r ss i;
  fetch_sockets = λ at ss. d.fetch_lem at ss i;
  disconnect_sockets = λ rooms ss. d.disconnect_lem rooms ss i;
  expo = s.expo;
  verify_access = s.verify_access;
  sha256 = s.sha256;
  bcrypt_hash = s.bcrypt_hash;
  random_hex = s.random_hex;
  uuid = s.uuid;
}
