-- ===== src/Stats/Text/Labels.antt =====
-- The names in the lines of statistics of include/dg_cat/stats.hpp, as bytes.
use dg_cat.Common.{ℕ, List, [], ◌∷◌}

abbrev pub comma : List ℕ
comma = 44 ∷ 32 ∷ []

-- `max_clump_size=`
abbrev pub max_clump_size_label : List ℕ
max_clump_size_label =
    109 ∷ 97 ∷ 120 ∷ 95 ∷ 99 ∷ 108 ∷ 117 ∷ 109 ∷ 112 ∷ 95 ∷ 115 ∷ 105 ∷ 122 ∷ 101 ∷ 61 ∷ []

-- `, start_clock time=`
abbrev pub start_clock_time_label : List ℕ
start_clock_time_label =
    44 ∷ 32 ∷ 115 ∷ 116 ∷ 97 ∷ 114 ∷ 116 ∷ 95 ∷ 99 ∷ 108 ∷ 111 ∷ 99 ∷ 107 ∷ 32 ∷ 116 ∷ 105 ∷ 109
    ∷ 101 ∷ 61 ∷ []

-- `, elapsed_secs=`
abbrev pub elapsed_secs_next_label : List ℕ
elapsed_secs_next_label =
    44 ∷ 32 ∷ 101 ∷ 108 ∷ 97 ∷ 112 ∷ 115 ∷ 101 ∷ 100 ∷ 95 ∷ 115 ∷ 101 ∷ 99 ∷ 115 ∷ 61 ∷ []

-- `max_backlog_bytes=`
abbrev pub max_backlog_bytes_label : List ℕ
max_backlog_bytes_label =
    109 ∷ 97 ∷ 120 ∷ 95 ∷ 98 ∷ 97 ∷ 99 ∷ 107 ∷ 108 ∷ 111 ∷ 103 ∷ 95 ∷ 98 ∷ 121 ∷ 116 ∷ 101 ∷ 115
    ∷ 61 ∷ []

-- `, n_datagrams=`
abbrev pub n_datagrams_label : List ℕ
n_datagrams_label = 44 ∷ 32 ∷ 110 ∷ 95 ∷ 100 ∷ 97 ∷ 116 ∷ 97 ∷ 103 ∷ 114 ∷ 97 ∷ 109 ∷ 115 ∷ 61 ∷ []

-- `, n_datagrams_discarded=`
abbrev pub n_datagrams_discarded_label : List ℕ
n_datagrams_discarded_label =
    44 ∷ 32 ∷ 110 ∷ 95 ∷ 100 ∷ 97 ∷ 116 ∷ 97 ∷ 103 ∷ 114 ∷ 97 ∷ 109 ∷ 115 ∷ 95 ∷ 100 ∷ 105 ∷ 115
    ∷ 99 ∷ 97 ∷ 114 ∷ 100 ∷ 101 ∷ 100 ∷ 61 ∷ []

-- `, n_datagram_bytes=`
abbrev pub n_datagram_bytes_label : List ℕ
n_datagram_bytes_label =
    44 ∷ 32 ∷ 110 ∷ 95 ∷ 100 ∷ 97 ∷ 116 ∷ 97 ∷ 103 ∷ 114 ∷ 97 ∷ 109 ∷ 95 ∷ 98 ∷ 121 ∷ 116 ∷ 101
    ∷ 115 ∷ 61 ∷ []

-- `, min_datagram_size=`
abbrev pub min_datagram_size_label : List ℕ
min_datagram_size_label =
    44 ∷ 32 ∷ 109 ∷ 105 ∷ 110 ∷ 95 ∷ 100 ∷ 97 ∷ 116 ∷ 97 ∷ 103 ∷ 114 ∷ 97 ∷ 109 ∷ 95 ∷ 115 ∷ 105
    ∷ 122 ∷ 101 ∷ 61 ∷ []

-- `, max_datagram_size=`
abbrev pub max_datagram_size_label : List ℕ
max_datagram_size_label =
    44 ∷ 32 ∷ 109 ∷ 97 ∷ 120 ∷ 95 ∷ 100 ∷ 97 ∷ 116 ∷ 97 ∷ 103 ∷ 114 ∷ 97 ∷ 109 ∷ 95 ∷ 115 ∷ 105
    ∷ 122 ∷ 101 ∷ 61 ∷ []

-- `, first_datagram_size=`
abbrev pub first_datagram_size_label : List ℕ
first_datagram_size_label =
    44 ∷ 32 ∷ 102 ∷ 105 ∷ 114 ∷ 115 ∷ 116 ∷ 95 ∷ 100 ∷ 97 ∷ 116 ∷ 97 ∷ 103 ∷ 114 ∷ 97 ∷ 109 ∷ 95
    ∷ 115 ∷ 105 ∷ 122 ∷ 101 ∷ 61 ∷ []

-- `elapsed_secs=`
abbrev pub elapsed_secs_label : List ℕ
elapsed_secs_label = 101 ∷ 108 ∷ 97 ∷ 112 ∷ 115 ∷ 101 ∷ 100 ∷ 95 ∷ 115 ∷ 101 ∷ 99 ∷ 115 ∷ 61 ∷ []

-- `, throughput_datagrams_per_sec=`
abbrev pub throughput_datagrams_per_sec_label : List ℕ
throughput_datagrams_per_sec_label =
    44 ∷ 32 ∷ 116 ∷ 104 ∷ 114 ∷ 111 ∷ 117 ∷ 103 ∷ 104 ∷ 112 ∷ 117 ∷ 116 ∷ 95 ∷ 100 ∷ 97 ∷ 116 ∷ 97
    ∷ 103 ∷ 114 ∷ 97 ∷ 109 ∷ 115 ∷ 95 ∷ 112 ∷ 101 ∷ 114 ∷ 95 ∷ 115 ∷ 101 ∷ 99 ∷ 61 ∷ []

-- `, throughput_bytes_per_sec=`
abbrev pub throughput_bytes_per_sec_label : List ℕ
throughput_bytes_per_sec_label =
    44 ∷ 32 ∷ 116 ∷ 104 ∷ 114 ∷ 111 ∷ 117 ∷ 103 ∷ 104 ∷ 112 ∷ 117 ∷ 116 ∷ 95 ∷ 98 ∷ 121 ∷ 116 ∷ 101
    ∷ 115 ∷ 95 ∷ 112 ∷ 101 ∷ 114 ∷ 95 ∷ 115 ∷ 101 ∷ 99 ∷ 61 ∷ []

-- `, mean_datagram_size=`
abbrev pub mean_datagram_size_label : List ℕ
mean_datagram_size_label =
    44 ∷ 32 ∷ 109 ∷ 101 ∷ 97 ∷ 110 ∷ 95 ∷ 100 ∷ 97 ∷ 116 ∷ 97 ∷ 103 ∷ 114 ∷ 97 ∷ 109 ∷ 95 ∷ 115
    ∷ 105 ∷ 122 ∷ 101 ∷ 61 ∷ []
