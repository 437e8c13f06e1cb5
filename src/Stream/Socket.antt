-- ===== src/Stream/Socket.antt =====
-- SocketStream: a stream over a Socket.
use server_demo.Common.{ℕ, Bool, ◌&&◌, List, [], if◌then◌else◌}
use server_demo.Common.Int.{ℤ, negsuc}
use server_demo.Stream.FixSize.{Stream}

-- A Socket is code of its own: what the stream uses of it.
pub record Socket {ℓ} (S : Type ℓ) : Type ℓ where
  pub is_connected : S → Bool
  pub recv : ℕ → S → ℤ × List ℕ × S
  pub send : List ℕ → S → ℤ × S
  pub close : S → S

-- The members of SocketStream; `present` says that m_socket is not null, `socket` is its state.
pub record SocketStream {ℓ} (S : Type ℓ) : Type ℓ where
  pub present : Bool
  pub owner : Bool
  pub socket : S

module _ {ℓ} {S : Type ℓ} (k : Socket S) where
  -- SocketStream::isConnected
  abbrev pub connected : SocketStream S → Bool
  connected t = t.present && k.is_connected t.socket

  -- SocketStream::read(buffer, length)
  unfoldable pub read : ℕ → SocketStream S → ℤ × List ℕ × SocketStream S
  read length t =
      let got = k.recv length t.socket in
      if connected t then (got.0, got.1, record t { socket = got.2 }) else (negsuc 0, [], t)

  -- SocketStream::write(buffer, length)
  unfoldable pub write : List ℕ → SocketStream S → ℤ × SocketStream S
  write buffer t =
      let sent = k.send buffer t.socket in
      if connected t then (sent.0, record t { socket = sent.1 }) else (negsuc 0, t)

  -- SocketStream::close, and ~SocketStream.
  unfoldable pub close : SocketStream S → SocketStream S
  close t = if t.present then record t { socket = k.close t.socket } else t

  unfoldable pub destroy : SocketStream S → SocketStream S
  destroy t = if t.owner && t.present then record t { socket = k.close t.socket } else t

  unfoldable pub stream : Stream (SocketStream S)
  unfolding read write
  stream = record { read = read; write = write }
