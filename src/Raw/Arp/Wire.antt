-- ===== src/Raw/Arp/Wire.antt =====
-- ARP packets on the wire.
use arrow_client.Base.{
  ℕ, ◌+◌, ◌-◌, ◌*◌, ◌≡◌, refl, ap, ◌∙◌, sym, false, List, [], ◌++◌, length, take, drop, drop-drop,
  take-append_le, take_all, drop-append_ge, length-append, ltb, ge→ltb, arith, append-nil,
}
use arrow_client.Base.Bytes.{IsU8, IsU16, be16, from_be16, from_be16-be16}
use arrow_client.Raw.Ether.{EtherHeader, ok}
use arrow_client.Raw.Ether.Laws.{IsLawful}
use arrow_client.Raw.Arp.{
  ArpPacket, ArpOperation, request, reply, operation_from, operation_code, header_size, read_fields,
  parse, raw_header, serialize, arp_body,
}

-- The fields fit the bits that the wire has for them, and the addresses have the lengths that the
-- packet names.
pub record IsWire (p : ArpPacket) : Type 0 where
  pub htype : IsU16 p.htype
  pub ptype : IsU16 p.ptype
  pub hlen : IsU8 p.hlen
  pub plen : IsU8 p.plen
  pub sha : length p.sha ≡ p.hlen
  pub spa : length p.spa ≡ p.plen
  pub tha : length p.tha ≡ p.hlen
  pub tpa : length p.tpa ≡ p.plen

-- The bytes that `serialize` writes, before the padding of a short Ethernet frame
abbrev pub wire : ArpPacket → List ℕ → List ℕ
wire p padding = raw_header p ++ (p.sha ++ (p.spa ++ (p.tha ++ (p.tpa ++ padding))))

operation-code :
    (oper : ArpOperation) → operation_from (from_be16 (be16 (operation_code oper))) ≡ ok oper
operation-code request = refl
operation-code reply = refl

-- A field of that length at the head of the bytes, and what follows it.
take-field : (n : ℕ) (xs ys : List ℕ) → length xs ≡ n → take n (xs ++ ys) ≡ xs
take-field n xs ys e = take-append_le n xs ys (omega arith) ∙ take_all n xs (omega arith)

drop-field : (n : ℕ) (xs ys : List ℕ) → length xs ≡ n → drop n (xs ++ ys) ≡ ys
drop-field n xs ys e =
    let none_left : n - length xs ≡ 0 = omega arith in
    drop-append_ge n xs ys (omega arith) ∙ ap (λ k. drop k ys) none_left

read_fields-wire :
    (p : ArpPacket) (padding : List ℕ)
    → IsWire p
    → read_fields p.hlen p.plen p.oper (wire p padding) ≡ p
unfolding read_fields raw_header
read_fields-wire p padding w =
    let spa_on = p.spa ++ (p.tha ++ (p.tpa ++ padding)) in
    let tha_on = p.tha ++ (p.tpa ++ padding) in
    let tpa_on = p.tpa ++ padding in
    let bytes = wire p padding in
    let at_spa : drop (header_size + p.hlen) bytes ≡ spa_on =
      sym (drop-drop p.hlen header_size bytes) ∙ drop-field p.hlen p.sha spa_on w.sha in
    let at_tha : drop (header_size + p.hlen + p.plen) bytes ≡ tha_on =
      sym (drop-drop p.plen (header_size + p.hlen) bytes)
      ∙ ap (drop p.plen) at_spa
      ∙ drop-field p.plen p.spa tha_on w.spa in
    let at_tpa : drop (header_size + p.hlen + p.plen + p.hlen) bytes ≡ tpa_on =
      sym (drop-drop p.hlen (header_size + p.hlen + p.plen) bytes)
      ∙ ap (drop p.hlen) at_tha
      ∙ drop-field p.hlen p.tha tpa_on w.tha in
    λ k. record {
      htype = from_be16-be16 p.htype w.htype k;
      ptype = from_be16-be16 p.ptype w.ptype k;
      hlen = p.hlen;
      plen = p.plen;
      oper = p.oper;
      sha = take-field p.hlen p.sha spa_on w.sha k;
      spa = (ap (take p.plen) at_spa ∙ take-field p.plen p.spa tha_on w.spa) k;
      tha = (ap (take p.hlen) at_tha ∙ take-field p.hlen p.tha tpa_on w.tha) k;
      tpa = (ap (take p.plen) at_tpa ∙ take-field p.plen p.tpa padding w.tpa) k;
    }

length-wire :
    (p : ArpPacket) (padding : List ℕ)
    → IsWire p
    → length (wire p padding) ≡ header_size + p.hlen * 2 + p.plen * 2 + length padding
unfolding raw_header
length-wire p padding w = omega (
  arith,
  length-append p.sha (p.spa ++ (p.tha ++ (p.tpa ++ padding))),
  length-append p.spa (p.tha ++ (p.tpa ++ padding)),
  length-append p.tha (p.tpa ++ padding),
  length-append p.tpa padding,
  w.sha,
  w.spa,
  w.tha,
  w.tpa,
)

-- An ARP packet is read back from its bytes, also when padding follows them.
pub parse-wire : (p : ArpPacket) (padding : List ℕ) → IsWire p → parse (wire p padding) ≡ ok p
unfolding parse raw_header
parse-wire p padding w =
    let size = length-wire p padding w in
    let whole : ltb (length (wire p padding)) header_size ≡ false = ge→ltb _ _ (omega arith) in
    let enough : ltb (length (wire p padding)) (header_size + p.hlen * 2 + p.plen * 2) ≡ false =
      ge→ltb _ _ (omega arith) in
    rw whole (rw enough (rw (operation-code p.oper) (ap ok (read_fields-wire p padding w))))

pub serialize-wire : (eh : EtherHeader) (p : ArpPacket) → serialize eh p ≡ ok (wire p [])
unfolding serialize
serialize-wire eh p =
    ap (λ bytes. ok (raw_header p ++ (p.sha ++ (p.spa ++ (p.tha ++ bytes)))))
      (sym (append-nil p.tpa))

-- So ARP packets are bodies that an Ethernet packet can carry.
abbrev pub arp_lawful : IsLawful arp_body
arp_lawful = record {
  IsSendable = λ eh p. IsWire p;
  read = λ p. p;
  written = λ eh p w. (wire p [], serialize-wire eh p, parse-wire p [] w);
  read_type = λ p. refl;
}
