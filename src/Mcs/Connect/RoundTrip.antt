-- ===== src/Mcs/Connect/RoundTrip.antt =====
-- The connect response that a server writes is read as what it says, in every BER form that the reader
-- knows.
use grdp.Prelude.{
  ℕ, zero, suc, ◌∙◌, ◌/◌, ◌%◌, ◌^◌, ◌≤◌, ◌<◌, ◌≡◌, ◌==◌, if◌then◌else◌, List, [], ◌∷◌, ◌++◌, none,
  some, true, false, length, arith, ap, append_assoc, refl,
}
use grdp.Prelude.Bits.{top_bit}
use grdp.Io.Laws.{read_bytes_all}
use grdp.Ber.{
  tag_sequence, tag_octet_string, tag_enumerated, tag_integer, write_universal_tag, universal_tag,
  read_length, read_integer, read_enumerated, read_application_tag,
}
use grdp.Ber.RoundTrip.{read_universal_tag-write}
use grdp.Mcs.Connect.{
  DomainParameters, new_domain_parameters, read_domain_parameters, response_data, response_tail,
  response_body, read_connect_response, mcs_type_connect_response,
}

-- A length in one of the forms of BER: itself, or behind 0x81 as a byte, or behind 0x82 as two bytes.
abbrev pub size_bytes : ℕ → ℕ → List ℕ
size_bytes form n =
    if form == 0 then n ∷ [] else if form == 1 then 0x81 ∷ n ∷ [] else 0x82 ∷ n / 256 ∷ n % 256 ∷ []

-- What the form holds.
abbrev pub FitsSize : ℕ → ℕ → Type 0
FitsSize form n = n < (if form == 0 then 128 else if form == 1 then 256 else 65536)

-- A number in `width` bytes, its high byte first.
abbrev pub number_bytes : ℕ → ℕ → List ℕ
number_bytes width n =
    if width == 1
    then n ∷ []
    else if width == 2
    then n / 256 ∷ n % 256 ∷ []
    else if width == 3
    then n / 65536 ∷ n / 256 % 256 ∷ n % 256 ∷ []
    else n / 2 ^ 24 ∷ n / 65536 % 256 ∷ n / 256 % 256 ∷ n % 256 ∷ []

-- A number as a server writes it: its value, its width, and the form of the length.
pub record Number : Type 0 where
  pub value : ℕ
  pub width : ℕ
  pub form : ℕ

pub record IsNumber (n : Number) : Type 0 where
  pub positive : 1 ≤ n.width
  pub most : n.width ≤ 4
  pub fits : n.value < (
      if n.width == 1
      then 256
      else if n.width == 2
      then 65536
      else if n.width == 3
      then 2 ^ 24
      else 2 ^ 32)

abbrev pub integer_bytes : Number → List ℕ
integer_bytes n =
    write_universal_tag tag_integer false
    ++ (size_bytes n.form n.width ++ number_bytes n.width n.value)

read_length-size_bytes :
    (form n : ℕ) (rest : List ℕ)
    → FitsSize form n
    → read_length (size_bytes form n ++ rest) ≡ (n, none, rest)
unfolding read_length
read_length-size_bytes form n rest h = ground (arith, top_bit n)

-- The clauses of `ReadInteger` by the width of the number.
read_width :
    (form width n : ℕ) (rest : List ℕ)
    → 1 ≤ width
    → width ≤ 4
    → n < (
        if width == 1
        then 256
        else if width == 2
        then 65536
        else if width == 3
        then 2 ^ 24
        else 2 ^ 32)
    → read_integer (2 ∷ (size_bytes form width ++ (number_bytes width n ++ rest))) ≡ (n, none, rest)
unfolding read_integer universal_tag
read_width zero (suc zero) n rest p q h = ground arith
read_width zero (suc (suc zero)) n rest p q h = ground arith
read_width zero (suc (suc (suc zero))) n rest p q h = ground arith
read_width zero (suc (suc (suc (suc zero)))) n rest p q h = ground arith
read_width (suc zero) (suc zero) n rest p q h = ground arith
read_width (suc zero) (suc (suc zero)) n rest p q h = ground arith
read_width (suc zero) (suc (suc (suc zero))) n rest p q h = ground arith
read_width (suc zero) (suc (suc (suc (suc zero)))) n rest p q h = ground arith
read_width (suc (suc f)) (suc zero) n rest p q h = ground arith
read_width (suc (suc f)) (suc (suc zero)) n rest p q h = ground arith
read_width (suc (suc f)) (suc (suc (suc zero))) n rest p q h = ground arith
read_width (suc (suc f)) (suc (suc (suc (suc zero)))) n rest p q h = ground arith
read_width form zero n rest p q h = absurd (omega arith)
read_width form (suc (suc (suc (suc (suc k))))) n rest p q h = absurd (omega arith)

read_integer-integer_bytes :
    (n : Number) (rest : List ℕ)
    → IsNumber n
    → read_integer (integer_bytes n ++ rest) ≡ (n.value, none, rest)
unfolding write_universal_tag universal_tag
read_integer-integer_bytes n rest h =
    ap (λ t. read_integer (2 ∷ t))
      (append_assoc (size_bytes n.form n.width) (number_bytes n.width n.value) rest)
    ∙ read_width n.form n.width n.value rest h.positive h.most h.fits

read_enumerated-bytes :
    (form b : ℕ) (rest : List ℕ)
    → read_enumerated
        (write_universal_tag tag_enumerated false ++ (size_bytes form 1 ++ (b ∷ rest)))
      ≡ (b, none, rest)
unfolding read_enumerated write_universal_tag universal_tag
read_enumerated-bytes zero b rest = ground arith
read_enumerated-bytes (suc zero) b rest = ground arith
read_enumerated-bytes (suc (suc f)) b rest = ground arith

-- The eight numbers of the domain parameters, and the length before them, which the reader drops.
pub record Parameters : Type 0 where
  pub size : ℕ
  pub form : ℕ
  pub max_channel_ids : Number
  pub max_user_ids : Number
  pub max_token_ids : Number
  pub num_priorities : Number
  pub min_thoughput : Number
  pub max_height : Number
  pub max_mcs_pdu_size : Number
  pub protocol_version : Number

pub record IsParameters (d : Parameters) : Type 0 where
  pub size : FitsSize d.form d.size
  pub max_channel_ids : IsNumber d.max_channel_ids
  pub max_user_ids : IsNumber d.max_user_ids
  pub max_token_ids : IsNumber d.max_token_ids
  pub num_priorities : IsNumber d.num_priorities
  pub min_thoughput : IsNumber d.min_thoughput
  pub max_height : IsNumber d.max_height
  pub max_mcs_pdu_size : IsNumber d.max_mcs_pdu_size
  pub protocol_version : IsNumber d.protocol_version

-- The parameters with the four numbers that the client keeps.
abbrev pub kept_parameters : Parameters → DomainParameters
kept_parameters d =
    new_domain_parameters d.max_channel_ids.value d.max_user_ids.value d.max_token_ids.value 0 0 0
      d.max_mcs_pdu_size.value 0

abbrev pub parameters_bytes : Parameters → List ℕ → List ℕ
parameters_bytes d rest =
    write_universal_tag tag_sequence true
    ++ (size_bytes d.form d.size
        ++ (integer_bytes d.max_channel_ids
            ++ (integer_bytes d.max_user_ids
                ++ (integer_bytes d.max_token_ids
                    ++ (integer_bytes d.num_priorities
                        ++ (integer_bytes d.min_thoughput
                            ++ (integer_bytes d.max_height
                                ++ (integer_bytes d.max_mcs_pdu_size
                                    ++ (integer_bytes d.protocol_version ++ rest)))))))))

read_domain_parameters-bytes :
    (d : Parameters) (rest : List ℕ)
    → IsParameters d
    → read_domain_parameters (parameters_bytes d rest) ≡ (some (kept_parameters d), rest)
unfolding read_domain_parameters
read_domain_parameters-bytes d rest v =
    let r8 : List ℕ = integer_bytes d.protocol_version ++ rest in
    let r7 : List ℕ = integer_bytes d.max_mcs_pdu_size ++ r8 in
    let r6 : List ℕ = integer_bytes d.max_height ++ r7 in
    let r5 : List ℕ = integer_bytes d.min_thoughput ++ r6 in
    let r4 : List ℕ = integer_bytes d.num_priorities ++ r5 in
    let r3 : List ℕ = integer_bytes d.max_token_ids ++ r4 in
    let r2 : List ℕ = integer_bytes d.max_user_ids ++ r3 in
    let r1 : List ℕ = integer_bytes d.max_channel_ids ++ r2 in
    rw (
      read_universal_tag-write tag_sequence true (size_bytes d.form d.size ++ r1),
      read_length-size_bytes d.form d.size r1 v.size,
      read_integer-integer_bytes d.max_channel_ids r2 v.max_channel_ids,
      read_integer-integer_bytes d.max_user_ids r3 v.max_user_ids,
      read_integer-integer_bytes d.max_token_ids r4 v.max_token_ids,
      read_integer-integer_bytes d.num_priorities r5 v.num_priorities,
      read_integer-integer_bytes d.min_thoughput r6 v.min_thoughput,
      read_integer-integer_bytes d.max_height r7 v.max_height,
      read_integer-integer_bytes d.max_mcs_pdu_size r8 v.max_mcs_pdu_size,
      read_integer-integer_bytes d.protocol_version rest v.protocol_version,
    )

-- A connect response as a server writes it: what it says, and the lengths that the reader drops, with
-- the form of each length.
pub record Response : Type 0 where
  pub size : ℕ
  pub size_form : ℕ
  pub result_form : ℕ
  pub result : ℕ
  pub called_connect_id : Number
  pub parameters : Parameters
  pub data_form : ℕ
  pub user_data : List ℕ

pub record IsResponse (c : Response) : Type 0 where
  pub size : FitsSize c.size_form c.size
  pub called_connect_id : IsNumber c.called_connect_id
  pub parameters : IsParameters c.parameters
  pub user_data : FitsSize c.data_form (length c.user_data)

-- The tag of the application class with the number 0x66, in its long form, first.
abbrev pub connect_response : Response → List ℕ
connect_response c =
    0x7F
    ∷ mcs_type_connect_response
    ∷ (size_bytes c.size_form c.size
        ++ (write_universal_tag tag_enumerated false
            ++ (size_bytes c.result_form 1
                ++ (c.result
                    ∷ (integer_bytes c.called_connect_id
                        ++ parameters_bytes c.parameters (
                            write_universal_tag tag_octet_string false
                            ++ (size_bytes c.data_form (length c.user_data) ++ c.user_data)))))))

read_application_tag-bytes :
    (rest : List ℕ)
    → read_application_tag mcs_type_connect_response (0x7F ∷ mcs_type_connect_response ∷ rest)
      ≡ read_length rest
unfolding read_application_tag
read_application_tag-bytes rest = refl

-- `ReadConnectResponse` reads every response of a server: the result, a byte; the id, the user data, and
-- the four domain parameters that it keeps, whatever the other four are. Each number stands in one to
-- four bytes, and each length in one byte, or behind 0x81 or 0x82.
pub read_connect_response-bytes :
    (c : Response)
    → IsResponse c
    → read_connect_response (connect_response c)
      ≡ some (record {
        result = c.result;
        called_connect_id = c.called_connect_id.value;
        domain_parameters = kept_parameters c.parameters;
        user_data = c.user_data;
      })
unfolding read_connect_response response_body response_tail response_data
read_connect_response-bytes c v =
    let r6 : List ℕ = size_bytes c.data_form (length c.user_data) ++ c.user_data in
    let r5 : List ℕ = write_universal_tag tag_octet_string false ++ r6 in
    let r4 : List ℕ = parameters_bytes c.parameters r5 in
    let r3 : List ℕ = integer_bytes c.called_connect_id ++ r4 in
    let r2 : List ℕ =
      write_universal_tag tag_enumerated false ++ (size_bytes c.result_form 1 ++ (c.result ∷ r3)) in
    rw (
      read_application_tag-bytes (size_bytes c.size_form c.size ++ r2),
      read_length-size_bytes c.size_form c.size r2 v.size,
      read_enumerated-bytes c.result_form c.result r3,
      read_integer-integer_bytes c.called_connect_id r4 v.called_connect_id,
      read_domain_parameters-bytes c.parameters r5 v.parameters,
      read_universal_tag-write tag_octet_string false r6,
      read_length-size_bytes c.data_form (length c.user_data) c.user_data v.user_data,
      read_bytes_all c.user_data,
    )
