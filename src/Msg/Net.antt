-- ===== src/Msg/Net.antt =====
-- How a message comes from the socket and goes to it (net_recv_msg and net_send_msg of vdev.c). The
-- calls of the system are repeated while they are interrupted; what they answer then is an argument.
use ya_vhost.Prelude.{
  ◌↔◌, ℕ, ◌+◌, ◌≡◌, ◌≤◌, ◌<◌, refl, List, [], ◌++◌, Option, none, some, Bool, false, not, ltb, ◌==◌,
  if◌then◌else◌, min, length, take, drop, take-append-drop, length-take, List-cases, arith,
  Bool-cases, inl, inr,
}
use ya_vhost.Errno.{Errno, emsgsize, eio, Result, ok, err}

-- `sizeof(struct vhost_user_msg_hdr)` and `VHOST_USER_MAX_FDS`
abbrev pub sizeof_hdr : ℕ
sizeof_hdr = 12

abbrev pub max_fds : ℕ
max_fds = 8

-- What `recvmsg` brings: the bytes of the header, and the descriptors of the SCM_RIGHTS message.
pub record Received : Type 0 where
  pub bytes : ℕ
  pub fds : List ℕ

-- What `net_recv_msg` returns, the descriptors that it hands on, and those that it closes.
pub record Recv : Type 0 where
  pub result : Result ℕ
  pub fds : List ℕ
  pub closed : List ℕ

-- The part behind the label `out`.
unfoldable pub recv_out : Result ℕ → (num_fds : ℕ) → List ℕ → Recv
recv_out (err e) num_fds rcvd = record { result = err e; fds = []; closed = rcvd }
recv_out (ok n) num_fds rcvd =
    let kept = min (if n == 0 then 0 else num_fds) (length rcvd) in
    record { result = ok n; fds = take kept rcvd; closed = drop kept rcvd }

-- `read` is what the read of the payload brings.
unfoldable pub net_recv_msg :
    (recvmsg : Result Received) (size : ℕ) (read : Result ℕ) (len num_fds : ℕ) → Recv
unfolding recv_out
net_recv_msg (err e) size read len num_fds = recv_out (err e) num_fds []
net_recv_msg (ok got) size read len num_fds =
    if got.bytes == 0
    then recv_out (ok 0) num_fds []
    else if not (got.bytes == sizeof_hdr)
    then recv_out (err eio) num_fds got.fds
    else if ltb len size
    then recv_out (err emsgsize) num_fds got.fds
    else elim read [
      | err e ↦ recv_out (err e) num_fds got.fds
      | ok rlen ↦
          if not (rlen == size)
          then recv_out (err eio) num_fds got.fds
          else recv_out (ok (got.bytes + rlen)) num_fds got.fds
    ]

-- `net_send_msg`: the error that it returns; `sendmsg` answers with the bytes that it took.
unfoldable pub net_send_msg : (sendmsg : Result ℕ) (size num_fds : ℕ) → Option Errno
net_send_msg sendmsg size num_fds = if ltb max_fds num_fds then some emsgsize else elim sendmsg [
  | err e ↦ some e
  | ok n ↦ if not (n == sizeof_hdr + size) then some eio else none
]

-- Whether a message was received: `conn_read` goes on with it.
abbrev pub Arrived : Result ℕ → Type 0
Arrived (err e) = ⊥
Arrived (ok n) = 0 < n

recv_out_fds :
    (res : Result ℕ) (num_fds : ℕ) (rcvd : List ℕ)
    → (recv_out res num_fds rcvd).fds ++ (recv_out res num_fds rcvd).closed ≡ rcvd
unfolding recv_out
recv_out_fds (err e) num_fds rcvd = refl
recv_out_fds (ok n) num_fds rcvd = take-append-drop _ rcvd

-- A message is taken exactly if the header came whole, its size fits the buffer, and the payload came
-- whole: all its bytes, and no more.
pub net_recv_msg-Arrived :
    (got : Received) (size : ℕ) (read : Result ℕ) (len num_fds : ℕ)
    → Arrived (net_recv_msg (ok got) size read len num_fds).result
      ↔ ((got.bytes ≡ sizeof_hdr) × (size ≤ len) × (read ≡ ok size))
unfolding net_recv_msg recv_out
net_recv_msg-Arrived got size (err e) len num_fds = ground arith
net_recv_msg-Arrived got size (ok rlen) len num_fds = ground arith

abbrev pub arrived : Result ℕ → Bool
arrived (err e) = false
arrived (ok n) = ltb 0 n

-- How many descriptors are handed on without a message.
abbrev pub left : Recv → ℕ
left r = if arrived r.result then 0 else length r.fds

recv_out_left :
    (res : Result ℕ) (num_fds : ℕ) (rcvd : List ℕ) → left (recv_out res num_fds rcvd) ≡ 0
unfolding recv_out
recv_out_left (err e) num_fds rcvd = refl
recv_out_left (ok n) num_fds rcvd =
    ground (arith, length-take (min (if n == 0 then 0 else num_fds) (length rcvd)) rcvd)

pub net_recv_msg_left :
    (recvmsg : Result Received) (size : ℕ) (read : Result ℕ) (len num_fds : ℕ)
    → left (net_recv_msg recvmsg size read len num_fds) ≡ 0
unfolding net_recv_msg
net_recv_msg_left (err e) size read len num_fds = recv_out_left (err e) num_fds []
net_recv_msg_left (ok got) size read len num_fds =
    let out = λ (res : Result ℕ) (fds : List ℕ). recv_out_left res num_fds fds in
    elim (Bool-cases (got.bytes == 0)) [
      | inl z ↦ ground (arith, z, out (ok 0) [])
      | inr z ↦ elim read as (λ read. left (net_recv_msg (ok got) size read len num_fds) ≡ 0) [
        | err e ↦
            ground
              (arith, z, out (err eio) got.fds, out (err emsgsize) got.fds, out (err e) got.fds)
        | ok n ↦ ground (
          arith,
          z,
          out (err eio) got.fds,
          out (err emsgsize) got.fds,
          out (ok (got.bytes + n)) got.fds,
        )
      ]
    ]

net_recv_msg-split :
    (got : Received) (size : ℕ) (read : Result ℕ) (len num_fds : ℕ)
    → 0 < got.bytes
    → ((net_recv_msg (ok got) size read len num_fds).fds
          ++ (net_recv_msg (ok got) size read len num_fds).closed
        ≡ got.fds)
unfolding net_recv_msg
net_recv_msg-split got size (err e) len num_fds h = ground (
  arith,
  recv_out_fds (err eio) num_fds got.fds,
  recv_out_fds (err emsgsize) num_fds got.fds,
  recv_out_fds (err e) num_fds got.fds,
)
net_recv_msg-split got size (ok rlen) len num_fds h = ground (
  arith,
  recv_out_fds (err eio) num_fds got.fds,
  recv_out_fds (err emsgsize) num_fds got.fds,
  recv_out_fds (ok (got.bytes + rlen)) num_fds got.fds,
)

no_fds : (r : Recv) → left r ≡ 0 → arrived r.result ≡ false → r.fds ≡ []
no_fds r e a = elim (List-cases r.fds) [
  | inl n ↦ n
  | inr (x, xs, c) ↦ absurd (ground (arith, e, a, c))
]

-- Every descriptor that the system hands over with a header is handed on or closed, once and in
-- order, on every path, and none is handed on unless a message arrived.
pub net_recv_msg_fds :
    (got : Received) (size : ℕ) (read : Result ℕ) (len num_fds : ℕ)
    → 0 < got.bytes
    → ((net_recv_msg (ok got) size read len num_fds).fds
          ++ (net_recv_msg (ok got) size read len num_fds).closed
        ≡ got.fds)
      × ((arrived (net_recv_msg (ok got) size read len num_fds).result ≡ false)
          → (net_recv_msg (ok got) size read len num_fds).fds ≡ [])
net_recv_msg_fds got size read len num_fds h = (
  net_recv_msg-split got size read len num_fds h,
  no_fds (net_recv_msg (ok got) size read len num_fds)
      (net_recv_msg_left (ok got) size read len num_fds),
)
