-- ===== src/Network/Sockets.antt =====
-- src/network/socketaddress.h, src/network/socketaddress.cpp, src/network/udpsocket.h and
-- src/network/udpsocket.cpp, and `sendPacket` of src/network/connection.cpp. boost::asio is a
-- parameter: its addresses with their two conversions, and its UDP socket.
use packaged_task.Base.{
  ℕ, ◌%◌, ◌^◌, ◌<◌, ◌≡◌, ap, List, [], ◌∷◌, ◌++◌, take, Option, none, some, Bool, true, false, ◌&&◌,
  ◌==◌, arith,
}
use packaged_task.Base.Text.{
  codes, newline, unsigned_text, Parsed, stoul, value, invalid_argument, out_of_range,
  stoul-unsigned_text,
}
use packaged_task.MemoryStream.{OutputMemoryStream, get_length}

-- An address of boost::asio: `from_string` throws on a text that is none.
pub record Addresses : Type 1 where
  pub Address : Type 0
  pub address_v4 : ℕ → Address
  pub from_string : List ℕ → Option Address
  pub to_string : Address → List ℕ
  pub eq : Address → Address → Bool

module _ (asio : Addresses) where
  -- The endpoint.
  pub record SocketAddress : Type 0 where
    pub address : asio.Address
    pub port : ℕ

  -- What the constructor from two texts ends in: the exceptions are those of `from_string` and
  -- `stoul`.
  pub data Made : Type 0 where
    made : SocketAddress → Made
    no_address no_number number_too_large : Made

  unfoldable pub socket_address : (in_address in_port : ℕ) → SocketAddress
  socket_address in_address in_port = record {
    address = asio.address_v4 in_address;
    port = in_port % 2 ^ 16;
  }

  -- The number is narrowed to the 16 bits of a port.
  unfoldable pub with_port : asio.Address → Parsed → Made
  with_port a (value n) = made (record { address = a; port = n % 2 ^ 16 })
  with_port a invalid_argument = no_number
  with_port a out_of_range = number_too_large

  unfoldable pub socket_address_of_text : (in_address in_port : List ℕ) → Made
  socket_address_of_text in_address in_port = elim (asio.from_string in_address) [
    | none ↦ no_address
    | some a ↦ with_port a (stoul in_port)
  ]

  unfoldable pub get_address : SocketAddress → List ℕ
  get_address s = asio.to_string s.address

  unfoldable pub get_port : SocketAddress → ℕ
  get_port s = s.port

  -- `operator==`
  unfoldable pub same_endpoint : SocketAddress → SocketAddress → Bool
  same_endpoint s t = asio.eq s.address t.address && s.port == t.port

  -- `toString()`
  unfoldable pub address_text : SocketAddress → List ℕ
  address_text s = get_address s ++ (codes ":" ++ unsigned_text (get_port s))

  -- The two parts that `toString` prints of a socket address, the address and the port, make that
  -- socket address again, where `from_string` reads what `to_string` prints, and the port has 16
  -- bits.
  pub socket_address_of_text-get_address :
      (s : SocketAddress)
      → asio.from_string (asio.to_string s.address) ≡ some s.address
      → s.port < 2 ^ 16
      → socket_address_of_text (get_address s) (unsigned_text (get_port s)) ≡ made s
  unfolding socket_address_of_text get_address get_port with_port
  socket_address_of_text-get_address s inverse small =
      rw (socket_address_of_text, inverse, stoul-unsigned_text s.port (omega arith))
        (ap (λ p. made (record { address = s.address; port = p })) (omega arith))

  -- What calls of boost's socket end in: an exception of the system with its text, or a value.
  pub data Tried (S A : Type 0) : Type 0 where
    returned : A → S → Tried S A
    system_error : (what : List ℕ) → S → Tried S A

  -- `boost::asio::ip::udp::socket`: `receive_from` gives the bytes that it has put into the buffer.
  pub record UdpService : Type 1 where
    pub Socket : Type 0
    pub bind : SocketAddress → Socket → Tried Socket (Unit {0})
    pub send_to : List ℕ → SocketAddress → Socket → Tried Socket ℕ
    pub receive_from : (max_length : ℕ) → Socket → Tried Socket (List ℕ × SocketAddress)

  module _ (udp : UdpService) where
    -- `UDPSocket::bind`: whether it succeeded, the socket, and what is written to the log as an
    -- error.
    unfoldable pub bind_result :
        SocketAddress → Tried udp.Socket (Unit {0}) → Bool × udp.Socket × List (List ℕ)
    bind_result to (returned a s) = (true, s, [])
    bind_result to (system_error what s) = (
      false,
      s,
      (codes "Error binding to address: " ++ (address_text to ++ (codes ". " ++ (what ++ newline))))
          ∷ [],
    )

    unfoldable pub bind : SocketAddress → udp.Socket → Bool × udp.Socket × List (List ℕ)
    bind to s = bind_result to (udp.bind to s)

    unfoldable pub send_to : List ℕ → SocketAddress → udp.Socket → Tried udp.Socket ℕ
    send_to in_to_send to s = udp.send_to in_to_send to s

    unfoldable pub receive_from : ℕ → udp.Socket → Tried udp.Socket (List ℕ × SocketAddress)
    receive_from in_max_length s = udp.receive_from in_max_length s

    unfoldable pub ignore_count : Tried udp.Socket ℕ → Tried udp.Socket (Unit {0})
    ignore_count (returned sent s) = returned tt s
    ignore_count (system_error what s) = system_error what s

    -- `sendPacket`: the bytes of the stream, as many as `getLength` says; an exception of the socket
    -- leaves it.
    unfoldable pub send_packet :
        OutputMemoryStream → SocketAddress → udp.Socket → Tried udp.Socket (Unit {0})
    send_packet o to s = ignore_count (send_to (take (get_length o) o.buffer) to s)
