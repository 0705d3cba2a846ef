-- ===== src/Gcc/Certificates.antt =====
-- protocol/t125/gcc/gcc.go: the security block of the server, with the certificate in it.
-- `none` is the panic of `ReadBytes` on a negative length; the package `struc`, which unpacks a chain of
-- X.509 certificates, is an argument, whose `none` is an error. The keys and their use are not modelled.
use grdp.Prelude.{ℕ, ◌-◌, bit_and, List, [], Option, none, some, ltb, ◌==◌, ◌&&◌, if◌then◌else◌}
use grdp.Io.{read_bytes, read_uint16_le, read_uint32_le}

abbrev pub cert_chain_version_1 : ℕ
cert_chain_version_1 = 1

abbrev pub cert_chain_version_2 : ℕ
cert_chain_version_2 = 2

pub record RsaPublicKey : Type 0 where
  pub magic : ℕ
  pub keylen : ℕ
  pub bitlen : ℕ
  pub datalen : ℕ
  pub pub_exp : ℕ
  pub modulus : List ℕ
  pub padding : List ℕ

pub record ProprietaryServerCertificate : Type 0 where
  pub dw_sig_alg_id : ℕ
  pub dw_key_alg_id : ℕ
  pub public_key_blob_type : ℕ
  pub public_key_blob_len : ℕ
  pub public_key_blob : RsaPublicKey
  pub signature_blob_type : ℕ
  pub signature_blob_len : ℕ
  pub signature_blob : List ℕ
  pub padding : List ℕ

-- The certificates of the chain, each as its bytes.
pub record X509CertificateChain : Type 0 where
  pub cert_blob_array : List (List ℕ)
  pub padding : List ℕ

pub data CertData : Type 0 where
  proprietary : ProprietaryServerCertificate → CertData
  x509 : X509CertificateChain → CertData

pub record ServerCertificate : Type 0 where
  pub dw_version : ℕ
  pub cert_data : Option CertData

pub record ServerSecurityData : Type 0 where
  pub encryption_method : ℕ
  pub encryption_level : ℕ
  pub server_random_len : ℕ
  pub server_cert_len : ℕ
  pub server_random : List ℕ
  pub server_certificate : ServerCertificate

-- `ServerCertificate{}`
abbrev pub no_certificate : ServerCertificate
no_certificate = record { dw_version = 0; cert_data = none }

-- `ProprietaryServerCertificate.Unpack`
unfoldable pub unpack_proprietary : List ℕ → Option ProprietaryServerCertificate
unpack_proprietary r =
    let (sig_alg, e1, r1) = read_uint32_le r in
    let (key_alg, e2, r2) = read_uint32_le r1 in
    let (blob_type, e3, r3) = read_uint16_le r2 in
    let (blob_len, e4, r4) = read_uint16_le r3 in
    let (magic, e5, r5) = read_uint32_le r4 in
    let (keylen, e6, r6) = read_uint32_le r5 in
    let (bitlen, e7, r7) = read_uint32_le r6 in
    let (datalen, e8, r8) = read_uint32_le r7 in
    let (pub_exp, e9, r9) = read_uint32_le r8 in
    let (modulus, e10, r10) = read_bytes (keylen - 8) r9 in
    let (key_padding, e11, r11) = read_bytes 8 r10 in
    let (sig_type, e12, r12) = read_uint16_le r11 in
    let (sig_len, e13, r13) = read_uint16_le r12 in
    let (signature, e14, r14) = read_bytes (sig_len - 8) r13 in
    let (padding, e15, r15) = read_bytes 8 r14 in
    if ltb keylen 8
    then none
    else if ltb sig_len 8
    then none
    else some (record {
      dw_sig_alg_id = sig_alg;
      dw_key_alg_id = key_alg;
      public_key_blob_type = blob_type;
      public_key_blob_len = blob_len;
      public_key_blob = record {
        magic = magic;
        keylen = keylen;
        bitlen = bitlen;
        datalen = datalen;
        pub_exp = pub_exp;
        modulus = modulus;
        padding = key_padding;
      };
      signature_blob_type = sig_type;
      signature_blob_len = sig_len;
      signature_blob = signature;
      padding = padding;
    })

-- What `ServerCertificate.Unpack` leaves its caller with: on an error the certificate is not taken.
unfoldable pub unpack_certificate :
    (List ℕ → Option X509CertificateChain) → List ℕ → Option ServerCertificate
unpack_certificate unpack_chain r =
    let (version, e, r1) = read_uint32_le r in
    let kind = bit_and version 0x7fffffff in
    if kind == cert_chain_version_1
    then elim (unpack_proprietary r1) [
      | none ↦ none
      | some p ↦ some (record { dw_version = version; cert_data = some (proprietary p) })
    ]
    else if kind == cert_chain_version_2
    then elim (unpack_chain r1) [
      | none ↦ some no_certificate
      | some x ↦ some (record { dw_version = version; cert_data = some (x509 x) })
    ]
    else some no_certificate

-- `ServerSecurityData.Unpack` into a zero value, whose error is only logged.
unfoldable pub unpack_security :
    (List ℕ → Option X509CertificateChain) → List ℕ → Option ServerSecurityData
unpack_security unpack_chain r =
    let (method, e1, r1) = read_uint32_le r in
    let (level, e2, r2) = read_uint32_le r1 in
    let (random_len, e3, r3) = read_uint32_le r2 in
    let (cert_len, e4, r4) = read_uint32_le r3 in
    let (random, e5, r5) = read_bytes random_len r4 in
    let (certificate, e6, r6) = read_bytes cert_len r5 in
    if (method == 0) && (level == 0)
    then some (record {
      encryption_method = method;
      encryption_level = level;
      server_random_len = 0;
      server_cert_len = 0;
      server_random = [];
      server_certificate = no_certificate;
    })
    else elim (unpack_certificate unpack_chain certificate) [
      | none ↦ none
      | some c ↦ some (record {
        encryption_method = method;
        encryption_level = level;
        server_random_len = random_len;
        server_cert_len = cert_len;
        server_random = random;
        server_certificate = c;
      })
    ]
