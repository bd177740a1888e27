-- ===== src/Raf/Record/Tests.antt =====
-- Runs on headers.
use tpbench.Prelude.{◌-◌, [], ◌∷◌, ◌++◌, List, ◌≡◌, refl, arith, length, replicate, le_bytes}
use tpbench.Raf.File.{ok, fault}
use tpbench.Raf.Record.{MetaHeader, write_headers, read_header, read_headers}
use tpbench.Raf.Record.Header.{IsStorable, headers_text, all_stored, read-write_headers}
use tpbench.Raf.Record.Corrupt.{read_header-fault}

-- A header of one dimension, with values left in the others.
abbrev pub header : MetaHeader
header = record {
  block_size = 0;
  ndim = 1;
  data_size = 40;
  type_bits = 3;
  reserve = 0;
  uattr_bits = 5;
  name = replicate 256 97;
  tag = replicate 256 98;
  note = replicate 2048 99;
  dimsizes = replicate 7 2;
  dimnames = replicate 7 (replicate 64 100);
}

pub header-IsStorable : IsStorable header
header-IsStorable = record {
  dims = omega arith;
  data_size_fits = omega arith;
  type_bits_fits = omega arith;
  reserve_fits = omega arith;
  uattr_bits_fits = omega arith;
  name_size = refl;
  tag_size = refl;
  note_size = refl;
  sizes_count = refl;
  sizes_fit = (
    omega arith,
    (omega arith, (omega arith, (omega arith, (omega arith, (omega arith, (omega arith, tt)))))),
  );
  names_count = refl;
  names_size = (refl, (refl, (refl, (refl, (refl, (refl, (refl, tt)))))));
}

abbrev headers : List MetaHeader
headers = header ∷ header ∷ []

headers_size : length (headers_text headers) ≡ 5328
headers_size = refl

read-write_headers_example :
    (write_headers (length headers) headers (record { past = []; ahead = []; gap = 0; room = 6000 })
      ≡ ok tt (record {
        past = [] ++ headers_text headers;
        ahead = [];
        gap = 0;
        room = 6000 - length (headers_text headers);
      }))
    × (read_headers
          (length headers)
          (record { past = []; ahead = headers_text headers ++ []; gap = 0; room = 6000 })
        ≡ ok
            (all_stored headers)
            (record { past = [] ++ headers_text headers; ahead = []; gap = 0; room = 6000 }))
read-write_headers_example =
    read-write_headers headers [] [] 6000 (header-IsStorable, (header-IsStorable, tt))
      (omega (arith, headers_size))

read_header-fault_example :
    read_header (record {
      past = [];
      ahead =
          le_bytes 4 3096
          ++ (le_bytes 4 8
              ++ (le_bytes 8 40
                  ++ (le_bytes 4 3
                      ++ (le_bytes 4 0
                          ++ (le_bytes 8 5
                              ++ (replicate 256 97
                                  ++ (replicate 256 98
                                      ++ (replicate 2048 99 ++ replicate 64 0))))))));
      gap = 0;
      room = 0;
    })
    ≡ fault
read_header-fault_example =
    read_header-fault 3096 8 40 3 0 5 (replicate 256 97) (replicate 256 98) (replicate 2048 99)
      (replicate 64 0) [] 0 (omega arith) (omega arith) (omega arith) (omega arith) (omega arith)
      (omega arith) (omega arith) refl refl refl (omega arith)
