-- ===== src/Tests/Sockets.antt =====
-- Two strings over a network, a socket address as text, a formatted line and a moved stream.
use packaged_task.Base.{
  ℕ, ◌-◌, ◌≡◌, refl, List, [], ◌∷◌, ◌++◌, length, take, some, none, zero, suc, replicate, drop, ltb,
  if◌then◌else◌, Bool, true, false, arith,
}
use packaged_task.Base.Text.{codes, unsigned_text, IsText}
use packaged_task.MemoryStream.{InputMemoryStream}
use packaged_task.MemoryStream.Moves.{move_construct, move_assign, moves-none}
use packaged_task.Network.{Connection}
use packaged_task.Network.Sockets.{
  Addresses, SocketAddress, made, get_address, get_port, socket_address_of_text,
  socket_address_of_text-get_address, returned, UdpService,
}
use packaged_task.Log.Printf.{
  Printf, log_max_string, cstr_log, Prints, PrintsAll, cstr_log_wide, cstr_log-cstr_log_wide,
}

-- Addresses that are their own text.
abbrev plain_addresses : Addresses
plain_addresses = record {
  Address = List ℕ;
  address_v4 = λ n. unsigned_text n;
  from_string = λ s. some s;
  to_string = λ s. s;
  eq = λ a b. true;
}

abbrev local : SocketAddress plain_addresses
local = record { address = codes "127.0.0.1"; port = 8080 }

socket_address_of_text-get_address_example :
    socket_address_of_text plain_addresses
      (get_address plain_addresses local)
      (unsigned_text (get_port plain_addresses local))
    ≡ made local
socket_address_of_text-get_address_example =
    socket_address_of_text-get_address plain_addresses local refl (omega arith)

-- A socket that keeps the datagrams that are sent.
abbrev wire : UdpService plain_addresses
wire = record {
  Socket = List (List ℕ);
  bind = λ to s. returned tt s;
  send_to = λ b to s. returned (length b) (s ++ (b ∷ []));
  receive_from = λ n s. returned ([], local) s;
}

abbrev quiet : Connection (SocketAddress plain_addresses)
quiet = record {
  input_stream = record { bytes = []; head = 0; capacity = 0 };
  packet_queue = [];
  resets = 0;
}

-- As many strings as a frame takes.
abbrev greetings : List (List ℕ)
greetings =
    codes "hello"
    ∷ codes "you"
    ∷ []
    ∷ codes "a"
    ∷ codes "b"
    ∷ codes "c"
    ∷ codes "d"
    ∷ codes "e"
    ∷ codes "f"
    ∷ codes "g"
    ∷ []

abbrev clock : ℕ → ℕ
clock i = 11

abbrev no_throw : ℕ → Bool
no_throw i = false

-- A formatted text is its own format.
abbrev cut_text : Printf (List ℕ)
cut_text size text buffer = take (size - 1) text ++ (0 ∷ [])

cut_text-Prints : Prints cut_text (λ t. t) (codes "started")
cut_text-Prints size buffer some_room = ([], refl)

-- The same over a buffer, with what is behind the text left alone. A `wchar_t` of four bytes.
abbrev whole_text : Printf (List ℕ)
whole_text size text buffer =
    if ltb (length text) size then text ++ (0 ∷ drop (suc (length text)) buffer) else buffer

whole_text-PrintsAll : (text : List ℕ) → PrintsAll whole_text 4 (λ t. t) text
whole_text-PrintsAll text size buffer short = ground arith

-- 1030 characters
abbrev long_line : List ℕ
long_line = replicate 1030 120

long_line-IsText : IsText long_line
long_line-IsText = replicate-IsText 1030
  where
    replicate-IsText : (n : ℕ) → IsText (replicate n 120)
    replicate-IsText zero = tt
    replicate-IsText (suc n) = (omega arith, replicate-IsText n)

cstr_log-cstr_log_wide_example :
    (cstr_log cut_text (codes "started") ≡ take 1023 (codes "started"))
    × (cstr_log_wide whole_text 4 long_line
        ≡ (if ltb (length long_line) log_max_string then some long_line else none))
cstr_log-cstr_log_wide_example =
    cstr_log-cstr_log_wide cut_text whole_text 4 (λ t. t) (λ t. t) (codes "started") long_line
      cut_text-Prints (omega arith) (whole_text-PrintsAll long_line) long_line-IsText (omega arith)

abbrev short_stream : InputMemoryStream
short_stream = record { bytes = 1 ∷ []; head = 0; capacity = 1 }

moves-none_example :
    (move_construct 50 short_stream ≡ none) × (move_assign 50 short_stream short_stream ≡ none)
moves-none_example = moves-none 50 short_stream short_stream
