-- ===== src/Api/RoundTrip/Entries.antt =====
-- The entries of the list settings: what one prints, and that the parser reads it back.
use Prim.Native.String.{String}
use rsbtd.Base.{
  ℕ, ◌≡◌, ◌≢◌, ◌≤◌, subst, refl, arith, true, false, List, [], ◌∷◌, ◌++◌, Option, some, All,
  All-append, map,
}
use rsbtd.Events.{Text}
use rsbtd.Settings.Texts.{contains, is_empty}
use rsbtd.Settings.Texts.Split.{
  Lacks, rsplit_once_at, trim_end, trim_end-append, behind-append, split, join, split-join,
}
use rsbtd.Settings.Texts.Decimal.{format, format-IsDigit, IsDigit, parse_u16-format}
use rsbtd.Settings.Tokens.{host_token, bare_host_token}
use rsbtd.Settings.Pack.{ok}
use rsbtd.Settings.Connections.Interfaces.{
  ListenEndpoint, is_flag, flags_of, endpoint_text, parse_endpoint, parse_entries,
}
use rsbtd.Settings.Dht.Nodes.{HostPort, node_text, parse_node}

All-imply : {P Q : ℕ → Type 0} (s : Text) → ((c : ℕ) → P c → Q c) → All P s → All Q s
All-imply [] f h = tt
All-imply (c ∷ s) f h = (f c h.0, All-imply s f h.1)

contains-Lacks : (sep : ℕ) (s : Text) → contains sep s ≡ false → Lacks sep s
contains-Lacks sep [] h = tt
contains-Lacks sep (c ∷ s) h = (ground (arith, h), contains-Lacks sep s (ground (arith, h)))

-- A token that is taken has no comma, and is not empty.
pub host_token-Lacks :
    (setting field : String) (s : Text) → host_token setting field s ≡ ok tt → Lacks b',' s
unfolding host_token
host_token-Lacks setting field s h = contains-Lacks b',' s (ground (arith, h))

pub bare_host_token-Lacks :
    (setting field : String) (s : Text) → bare_host_token setting field s ≡ ok tt → Lacks b',' s
unfolding bare_host_token
bare_host_token-Lacks setting field s h = contains-Lacks b',' s (ground (arith, h))

pub bare_host_token-filled :
    (setting field : String) (s : Text)
    → bare_host_token setting field s ≡ ok tt
    → is_empty s ≡ false
unfolding bare_host_token
bare_host_token-filled setting field s h = ground (arith, h)

-- No byte that is not a digit stands in a printed number.
format-Lacks : (n c : ℕ) → (IsDigit c → ⊥) → Lacks c (format n)
format-Lacks n c h = All-imply (format n) (λ d id e. h (subst IsDigit e id)) (format-IsDigit n)

flags_of-Lacks : (c : ℕ) (e : ListenEndpoint) → b's' ≢ c → b'l' ≢ c → Lacks c (flags_of e)
flags_of-Lacks c e hs hl = ground (arith, hs, hl)

flags_of-flags : (e : ListenEndpoint) → All (λ c. is_flag c ≡ true) (flags_of e)
flags_of-flags e = ground arith

rest-Lacks :
    (c : ℕ) (e : ListenEndpoint)
    → (IsDigit c → ⊥)
    → b's' ≢ c
    → b'l' ≢ c
    → Lacks c (format e.port ++ flags_of e)
rest-Lacks c e h hs hl =
    All-append (λ d. d ≢ c) (format e.port) (flags_of e) (format-Lacks e.port c h)
      (flags_of-Lacks c e hs hl)

pub endpoint_text-Lacks : (e : ListenEndpoint) → Lacks b',' e.addr → Lacks b',' (endpoint_text e)
unfolding endpoint_text
endpoint_text-Lacks e h =
    All-append (λ d. d ≢ b',') e.addr (b':' ∷ (format e.port ++ flags_of e)) h
      (omega arith, rest-Lacks b',' e (λ d. omega arith) (omega arith) (omega arith))

port_text : (e : ListenEndpoint) → trim_end is_flag (format e.port ++ flags_of e) ≡ format e.port
port_text e =
    trim_end-append is_flag (format e.port) (flags_of e)
      (All-imply (format e.port) (λ c d. ground (arith, d)) (format-IsDigit e.port))
      (flags_of-flags e)

flag_s : (e : ListenEndpoint) → contains b's' (flags_of e) ≡ e.ssl
flag_s e = ground arith

flag_l : (e : ListenEndpoint) → contains b'l' (flags_of e) ≡ e.local
flag_l e = ground arith

pub parse_endpoint-text :
    (e : ListenEndpoint) → e.port ≤ 65535 → parse_endpoint (endpoint_text e) ≡ some e
unfolding parse_endpoint endpoint_text
parse_endpoint-text e bound = rw (
  rsplit_once_at b':' e.addr _ (rest-Lacks b':' e (λ d. omega arith) (omega arith) (omega arith)),
  port_text e,
  behind-append (format e.port) (flags_of e),
  parse_u16-format e.port bound,
  flag_s e,
  flag_l e,
)

filled : (a : Text) (c : ℕ) (s : Text) → is_empty (a ++ c ∷ s) ≡ false
filled [] c s = refl
filled (d ∷ a) c s = refl

pub endpoint_text-filled : (e : ListenEndpoint) → is_empty (endpoint_text e) ≡ false
unfolding endpoint_text
endpoint_text-filled e = filled e.addr b':' (format e.port ++ flags_of e)

pub node_text-Lacks : (n : HostPort) → Lacks b',' n.host → Lacks b',' (node_text n)
unfolding node_text
node_text-Lacks n h =
    All-append (λ d. d ≢ b',') n.host (b':' ∷ format n.port) h
      (omega arith, format-Lacks n.port b',' (λ d. omega arith))

pub parse_node-text :
    (n : HostPort) → 1 ≤ n.port → n.port ≤ 65535 → parse_node (node_text n) ≡ some n
unfolding parse_node node_text
parse_node-text n positive bound =
    rw
      (
        rsplit_once_at b':' n.host _ (format-Lacks n.port b':' (λ d. omega arith)),
        parse_u16-format n.port bound,
      )
      (ground arith)

pub node_text-filled : (n : HostPort) → is_empty (node_text n) ≡ false
unfolding node_text
node_text-filled n = filled n.host b':' (format n.port)

module _ {A : Type 0} (text : A → Text) (parse : Text → Option A) where
  -- An entry that is printed without a comma, not empty, and read back.
  abbrev pub Readable : A → Type 0
  Readable a = Lacks b',' (text a) × (is_empty (text a) ≡ false) × (parse (text a) ≡ some a)

  parse_entries-texts :
      (list : List A) → All Readable list → parse_entries parse (map text list) ≡ some list
  unfolding parse_entries
  parse_entries-texts [] h = refl
  parse_entries-texts (a ∷ list) h = rw (h.0.1, h.0.2, parse_entries-texts list h.1) refl

  texts-Lacks : (list : List A) → All Readable list → All (Lacks b',') (map text list)
  texts-Lacks [] h = tt
  texts-Lacks (a ∷ list) h = (h.0.0, texts-Lacks list h.1)

  -- The joined text of any number of such entries, none included, is parsed to them.
  pub parsed-joined :
      (list : List A)
      → All Readable list
      → parse_entries parse (split b',' (join b',' (map text list))) ≡ some list
  unfolding parse_entries split join
  parsed-joined [] h = refl
  parsed-joined (a ∷ list) h =
      rw (split-join b',' (text a) (map text list) (texts-Lacks (a ∷ list) h))
        (parse_entries-texts (a ∷ list) h)
