-- ===== src/Fs/Framing.antt =====
-- Which requests `handle_buffers` (virtio/virtio_fs.c) takes for well framed.
use ya_vhost.Prelude.{
  ℕ, ◌≤◌, ◌≡◌, refl, ap, ◌↔◌, true, false, Option, none, some, List, [], ◌∷◌, ◌++◌, arith, All,
  Bool-cases, inl, inr,
}
use ya_vhost.Virtq.State.{Buffer}
use ya_vhost.Fs.Device.{in_header_size, out_header_size}
use ya_vhost.Fs.Request.{skip_read_only, skip_write_only, parse_out, parse}

abbrev pub ReadOnly : Buffer → Type 0
ReadOnly b = b.write_only ≡ false

abbrev pub WriteOnly : Buffer → Type 0
WriteOnly b = b.write_only ≡ true

-- The buffers for the reply: none at all, or the first of them has room for the header, which is
-- where it begins.
abbrev pub IsReply : List Buffer → Option ℕ → Type 0
IsReply [] none = Unit
IsReply [] (some ptr) = ⊥
IsReply (b ∷ bs) none = ⊥
IsReply (b ∷ bs) (some ptr) = (out_header_size ≤ b.len) × (b.base ≡ ptr) × All WriteOnly (b ∷ bs)

-- The message framing without VIRTIO_F_ANY_LAYOUT: readable buffers, of which the first has room
-- for the header, and then the buffers for the reply.
pub record IsFramed (bs : List Buffer) (out : Option ℕ) : Type 0 where
  pub first : Buffer
  pub ins : List Buffer
  pub outs : List Buffer
  pub split : bs ≡ (first ∷ ins) ++ outs
  pub header : in_header_size ≤ first.len
  pub readable : All ReadOnly (first ∷ ins)
  pub reply : IsReply outs out

skip_write_only-nil : (bs : List Buffer) → skip_write_only bs ≡ [] → All WriteOnly bs
unfolding skip_write_only
skip_write_only-nil [] e = tt
skip_write_only-nil (b ∷ bs) e = elim (Bool-cases b.write_only) [
  | inl t ↦ (t, skip_write_only-nil bs (ground arith))
  | inr t ↦ absurd (ground arith)
]

All-skip_write_only : (bs : List Buffer) → All WriteOnly bs → skip_write_only bs ≡ []
unfolding skip_write_only
All-skip_write_only [] h = refl
All-skip_write_only (b ∷ bs) h = ground (arith, All-skip_write_only bs h.1)

-- What the loop over the readable buffers leaves.
record IsSkipped (bs rest : List Buffer) : Type 0 where
  ins : List Buffer
  split : bs ≡ ins ++ rest
  readable : All ReadOnly ins

skip_read_only-IsSkipped : (bs : List Buffer) → IsSkipped bs (skip_read_only bs)
unfolding skip_read_only
skip_read_only-IsSkipped [] = record { ins = []; split = refl; readable = tt }
skip_read_only-IsSkipped (b ∷ bs) = elim (Bool-cases b.write_only) [
  | inl t ↦ record { ins = []; split = ground arith; readable = tt }
  | inr t ↦
      let s = skip_read_only-IsSkipped bs in
      record {
        ins = b ∷ s.ins;
        split = ground (arith, ap (λ l. b ∷ l) s.split);
        readable = (t, s.readable);
      }
]

skip_read_only-step :
    (b : Buffer) (bs : List Buffer)
    → b.write_only ≡ false
    → skip_read_only (b ∷ bs) ≡ skip_read_only bs
unfolding skip_read_only
skip_read_only-step b bs e = ground arith

skip_read_only-append :
    (ins outs : List Buffer) (out : Option ℕ)
    → All ReadOnly ins
    → IsReply outs out
    → skip_read_only (ins ++ outs) ≡ outs
unfolding skip_read_only
skip_read_only-append [] [] out h r = refl
skip_read_only-append [] (b ∷ bs) none h r = absurd r
skip_read_only-append [] (b ∷ bs) (some ptr) h r = ground arith
skip_read_only-append (b ∷ ins) outs out h r =
    ground (arith, skip_read_only-append ins outs out h.1 r)

parse_out-IsReply : (bs : List Buffer) (out : Option ℕ) → parse_out bs ≡ some out → IsReply bs out
unfolding parse_out
parse_out-IsReply [] none e = tt
parse_out-IsReply [] (some ptr) e = absurd (ground arith)
parse_out-IsReply (b ∷ bs) none e = absurd (ground arith)
parse_out-IsReply (b ∷ bs) (some ptr) e =
    (ground arith, ground arith, skip_write_only-nil (b ∷ bs) (ground arith))

IsReply-parse_out : (bs : List Buffer) (out : Option ℕ) → IsReply bs out → parse_out bs ≡ some out
unfolding parse_out
IsReply-parse_out [] none r = refl
IsReply-parse_out [] (some ptr) r = absurd r
IsReply-parse_out (b ∷ bs) none r = absurd r
IsReply-parse_out (b ∷ bs) (some ptr) r = ground (arith, All-skip_write_only (b ∷ bs) r.2)

parse-IsFramed : (bs : List Buffer) (out : Option ℕ) → parse bs ≡ some out → IsFramed bs out
unfolding parse
parse-IsFramed [] out e = absurd (ground arith)
parse-IsFramed (b ∷ bs) out e = elim (Bool-cases b.write_only) [
  | inl t ↦ absurd (ground arith)
  | inr t ↦
      let s = skip_read_only-IsSkipped bs in
      let same : skip_read_only (b ∷ bs) ≡ skip_read_only bs = skip_read_only-step b bs t in
      record {
        first = b;
        ins = s.ins;
        outs = skip_read_only bs;
        split = ap (λ l. b ∷ l) s.split;
        header = ground arith;
        readable = (t, s.readable);
        reply = parse_out-IsReply (skip_read_only bs) out (ground (arith, same));
      }
]

IsFramed-parse : (bs : List Buffer) (out : Option ℕ) → IsFramed bs out → parse bs ≡ some out
unfolding parse
IsFramed-parse bs out f =
    let skipped : skip_read_only ((f.first ∷ f.ins) ++ f.outs) ≡ f.outs =
      skip_read_only-append (f.first ∷ f.ins) f.outs out f.readable f.reply in
    let header = f.header in
    let first_readable = f.readable.0 in
    rw f.split (ground (arith, skipped, IsReply-parse_out f.outs out f.reply))

-- `handle_buffers` takes a request for well framed, with the reply header at `out`, exactly if its
-- buffers are at least one readable buffer, of which the first has room for the request header,
-- followed by writable ones only, of which the first, if there is one, has room for the reply
-- header and begins with it.
pub parse_iff : (bs : List Buffer) (out : Option ℕ) → (parse bs ≡ some out) ↔ IsFramed bs out
parse_iff bs out = (parse-IsFramed bs out, IsFramed-parse bs out)
