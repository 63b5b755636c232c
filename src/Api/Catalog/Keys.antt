-- ===== src/Api/Catalog/Keys.antt =====
-- Each field of the catalog stages the one key that its name stands for in the table of settings.
use rsbtd.Base.{refl, ◌++◌, All, All-append}
use rsbtd.Settings.Table.{lt_setting}
use rsbtd.Api.Scalar.Wiring.{Wired, ranged-put, peer_fingerprint-put, peer_dscp-put}
use rsbtd.Api.Catalog.{catalog}
use rsbtd.Api.Catalog.Strings.{string_fields}
use rsbtd.Api.Catalog.Flags.{flag_fields, more_flag_fields}
use rsbtd.Api.Catalog.Ints.{request_fields, limit_fields, rate_fields, service_fields}

string_fields-Wired : All Wired string_fields
unfolding lt_setting
string_fields-Wired = (
  (0x0001, refl, λ v p. refl),
  (
    (0x0003, refl, λ v p. refl),
    ((0x000a, refl, peer_fingerprint-put), ((0x000c, refl, λ v p. refl), tt)),
  ),
)

flag_fields-Wired : All Wired flag_fields
unfolding lt_setting
flag_fields-Wired = (
  (0x8000, refl, λ v p. refl),
  (
    (0x8002, refl, λ v p. refl),
    (
      (0x8004, refl, λ v p. refl),
      (
        (0x8005, refl, λ v p. refl),
        (
          (0x8006, refl, λ v p. refl),
          (
            (0x800c, refl, λ v p. refl),
            (
              (0x800d, refl, λ v p. refl),
              (
                (0x800e, refl, λ v p. refl),
                (
                  (0x800f, refl, λ v p. refl),
                  (
                    (0x8010, refl, λ v p. refl),
                    (
                      (0x8011, refl, λ v p. refl),
                      (
                        (0x8012, refl, λ v p. refl),
                        (
                          (0x8013, refl, λ v p. refl),
                          (
                            (0x801b, refl, λ v p. refl),
                            (
                              (0x801c, refl, λ v p. refl),
                              (
                                (0x801d, refl, λ v p. refl),
                                (
                                  (0x801e, refl, λ v p. refl),
                                  (
                                    (0x8025, refl, λ v p. refl),
                                    (
                                      (0x8026, refl, λ v p. refl),
                                      (
                                        (0x8027, refl, λ v p. refl),
                                        (
                                          (0x802a, refl, λ v p. refl),
                                          (
                                            (0x802b, refl, λ v p. refl),
                                            (
                                              (0x802c, refl, λ v p. refl),
                                              (
                                                (0x802d, refl, λ v p. refl),
                                                ((0x802e, refl, λ v p. refl), tt),
                                              ),
                                            ),
                                          ),
                                        ),
                                      ),
                                    ),
                                  ),
                                ),
                              ),
                            ),
                          ),
                        ),
                      ),
                    ),
                  ),
                ),
              ),
            ),
          ),
        ),
      ),
    ),
  ),
)

more_flag_fields-Wired : All Wired more_flag_fields
unfolding lt_setting
more_flag_fields-Wired = (
  (0x8032, refl, λ v p. refl),
  (
    (0x8035, refl, λ v p. refl),
    (
      (0x8037, refl, λ v p. refl),
      (
        (0x8038, refl, λ v p. refl),
        (
          (0x803b, refl, λ v p. refl),
          (
            (0x803c, refl, λ v p. refl),
            (
              (0x803d, refl, λ v p. refl),
              (
                (0x803e, refl, λ v p. refl),
                (
                  (0x8042, refl, λ v p. refl),
                  (
                    (0x8044, refl, λ v p. refl),
                    (
                      (0x8045, refl, λ v p. refl),
                      (
                        (0x8046, refl, λ v p. refl),
                        (
                          (0x8047, refl, λ v p. refl),
                          (
                            (0x8048, refl, λ v p. refl),
                            (
                              (0x8049, refl, λ v p. refl),
                              (
                                (0x804a, refl, λ v p. refl),
                                (
                                  (0x804b, refl, λ v p. refl),
                                  (
                                    (0x804c, refl, λ v p. refl),
                                    (
                                      (0x804d, refl, λ v p. refl),
                                      (
                                        (0x804e, refl, λ v p. refl),
                                        (
                                          (0x804f, refl, λ v p. refl),
                                          (
                                            (0x8050, refl, λ v p. refl),
                                            (
                                              (0x8051, refl, λ v p. refl),
                                              (
                                                (0x8055, refl, λ v p. refl),
                                                ((0x8056, refl, λ v p. refl), tt),
                                              ),
                                            ),
                                          ),
                                        ),
                                      ),
                                    ),
                                  ),
                                ),
                              ),
                            ),
                          ),
                        ),
                      ),
                    ),
                  ),
                ),
              ),
            ),
          ),
        ),
      ),
    ),
  ),
)

request_fields-Wired : All Wired request_fields
unfolding lt_setting
request_fields-Wired = (
  (0x4000, refl, ranged-put _ _ _ _),
  (
    (0x4001, refl, ranged-put _ _ _ _),
    (
      (0x4002, refl, λ v p. refl),
      (
        (0x4004, refl, λ v p. refl),
        (
          (0x4005, refl, λ v p. refl),
          (
            (0x4006, refl, λ v p. refl),
            (
              (0x4007, refl, ranged-put _ _ _ _),
              (
                (0x4008, refl, λ v p. refl),
                (
                  (0x4009, refl, λ v p. refl),
                  (
                    (0x400a, refl, ranged-put _ _ _ _),
                    (
                      (0x400b, refl, λ v p. refl),
                      (
                        (0x400d, refl, λ v p. refl),
                        (
                          (0x400e, refl, ranged-put _ _ _ _),
                          (
                            (0x400f, refl, ranged-put _ _ _ _),
                            (
                              (0x4010, refl, ranged-put _ _ _ _),
                              (
                                (0x4011, refl, ranged-put _ _ _ _),
                                (
                                  (0x4012, refl, λ v p. refl),
                                  (
                                    (0x4013, refl, λ v p. refl),
                                    (
                                      (0x4014, refl, λ v p. refl),
                                      (
                                        (0x4015, refl, λ v p. refl),
                                        (
                                          (0x4016, refl, λ v p. refl),
                                          (
                                            (0x4017, refl, λ v p. refl),
                                            (
                                              (0x4018, refl, λ v p. refl),
                                              (
                                                (0x401a, refl, ranged-put _ _ _ _),
                                                (
                                                  (0x401b, refl, ranged-put _ _ _ _),
                                                  (
                                                    (0x401c, refl, λ v p. refl),
                                                    (
                                                      (0x401d, refl, ranged-put _ _ _ _),
                                                      (
                                                        (0x401e, refl, λ v p. refl),
                                                        ((0x4028, refl, peer_dscp-put, refl), tt),
                                                      ),
                                                    ),
                                                  ),
                                                ),
                                              ),
                                            ),
                                          ),
                                        ),
                                      ),
                                    ),
                                  ),
                                ),
                              ),
                            ),
                          ),
                        ),
                      ),
                    ),
                  ),
                ),
              ),
            ),
          ),
        ),
      ),
    ),
  ),
)

limit_fields-Wired : All Wired limit_fields
unfolding lt_setting
limit_fields-Wired = (
  (0x4029, refl, λ v p. refl),
  (
    (0x402a, refl, λ v p. refl),
    (
      (0x402b, refl, λ v p. refl),
      (
        (0x402c, refl, λ v p. refl),
        (
          (0x402d, refl, λ v p. refl),
          (
            (0x402e, refl, λ v p. refl),
            (
              (0x402f, refl, λ v p. refl),
              (
                (0x4031, refl, λ v p. refl),
                (
                  (0x4032, refl, λ v p. refl),
                  (
                    (0x4033, refl, λ v p. refl),
                    (
                      (0x4034, refl, λ v p. refl),
                      (
                        (0x4035, refl, ranged-put _ _ _ _),
                        (
                          (0x4036, refl, ranged-put _ _ _ _),
                          (
                            (0x4037, refl, λ v p. refl),
                            (
                              (0x4038, refl, λ v p. refl),
                              (
                                (0x4039, refl, λ v p. refl),
                                (
                                  (0x403b, refl, λ v p. refl),
                                  (
                                    (0x403c, refl, λ v p. refl),
                                    (
                                      (0x403d, refl, ranged-put _ _ _ _),
                                      (
                                        (0x4041, refl, λ v p. refl),
                                        (
                                          (0x4042, refl, ranged-put _ _ _ _),
                                          (
                                            (0x4043, refl, ranged-put _ _ _ _),
                                            (
                                              (0x4044, refl, ranged-put _ _ _ _),
                                              (
                                                (0x4045, refl, λ v p. refl),
                                                (
                                                  (0x4047, refl, λ v p. refl),
                                                  (
                                                    (0x404b, refl, λ v p. refl),
                                                    (
                                                      (0x404c, refl, ranged-put _ _ _ _),
                                                      (
                                                        (0x404d, refl, λ v p. refl),
                                                        ((0x404e, refl, λ v p. refl), tt),
                                                      ),
                                                    ),
                                                  ),
                                                ),
                                              ),
                                            ),
                                          ),
                                        ),
                                      ),
                                    ),
                                  ),
                                ),
                              ),
                            ),
                          ),
                        ),
                      ),
                    ),
                  ),
                ),
              ),
            ),
          ),
        ),
      ),
    ),
  ),
)

rate_fields-Wired : All Wired rate_fields
unfolding lt_setting
rate_fields-Wired = (
  (0x404f, refl, λ v p. refl),
  (
    (0x4052, refl, λ v p. refl),
    (
      (0x4053, refl, λ v p. refl),
      (
        (0x4055, refl, λ v p. refl),
        (
          (0x4056, refl, λ v p. refl),
          (
            (0x4057, refl, ranged-put _ _ _ _),
            (
              (0x4058, refl, λ v p. refl),
              (
                (0x4059, refl, λ v p. refl),
                (
                  (0x405a, refl, λ v p. refl),
                  (
                    (0x405b, refl, λ v p. refl),
                    (
                      (0x405c, refl, λ v p. refl),
                      (
                        (0x405d, refl, ranged-put _ _ _ _),
                        (
                          (0x405f, refl, ranged-put _ _ _ _),
                          (
                            (0x4061, refl, λ v p. refl),
                            (
                              (0x4062, refl, λ v p. refl),
                              (
                                (0x4064, refl, ranged-put _ _ _ _),
                                (
                                  (0x4065, refl, ranged-put _ _ _ _),
                                  (
                                    (0x4066, refl, ranged-put _ _ _ _),
                                    (
                                      (0x4067, refl, λ v p. refl),
                                      (
                                        (0x4068, refl, ranged-put _ _ _ _),
                                        (
                                          (0x406c, refl, ranged-put _ _ _ _),
                                          (
                                            (0x406d, refl, λ v p. refl),
                                            (
                                              (0x406e, refl, λ v p. refl),
                                              (
                                                (0x406f, refl, ranged-put _ _ _ _),
                                                (
                                                  (0x4070, refl, λ v p. refl),
                                                  (
                                                    (0x4071, refl, λ v p. refl),
                                                    (
                                                      (0x4072, refl, λ v p. refl),
                                                      (
                                                        (0x4073, refl, λ v p. refl),
                                                        ((0x4074, refl, λ v p. refl), tt),
                                                      ),
                                                    ),
                                                  ),
                                                ),
                                              ),
                                            ),
                                          ),
                                        ),
                                      ),
                                    ),
                                  ),
                                ),
                              ),
                            ),
                          ),
                        ),
                      ),
                    ),
                  ),
                ),
              ),
            ),
          ),
        ),
      ),
    ),
  ),
)

service_fields-Wired : All Wired service_fields
unfolding lt_setting
service_fields-Wired = (
  (0x4079, refl, λ v p. refl),
  (
    (0x407a, refl, λ v p. refl),
    (
      (0x407f, refl, λ v p. refl),
      (
        (0x4080, refl, λ v p. refl),
        (
          (0x4081, refl, λ v p. refl),
          (
            (0x4082, refl, λ v p. refl),
            (
              (0x4083, refl, λ v p. refl),
              (
                (0x4084, refl, λ v p. refl),
                (
                  (0x4085, refl, λ v p. refl),
                  (
                    (0x4086, refl, λ v p. refl),
                    (
                      (0x4087, refl, ranged-put _ _ _ _),
                      (
                        (0x4088, refl, ranged-put _ _ _ _),
                        (
                          (0x4089, refl, ranged-put _ _ _ _),
                          (
                            (0x408a, refl, ranged-put _ _ _ _),
                            (
                              (0x408b, refl, λ v p. refl),
                              (
                                (0x408c, refl, λ v p. refl),
                                (
                                  (0x408d, refl, ranged-put _ _ _ _),
                                  (
                                    (0x408e, refl, λ v p. refl),
                                    (
                                      (0x4090, refl, λ v p. refl),
                                      (
                                        (0x4091, refl, λ v p. refl),
                                        (
                                          (0x4092, refl, λ v p. refl),
                                          (
                                            (0x4093, refl, ranged-put _ _ _ _),
                                            (
                                              (0x4094, refl, λ v p. refl),
                                              (
                                                (0x4095, refl, ranged-put _ _ _ _),
                                                (
                                                  (0x4096, refl, ranged-put _ _ _ _),
                                                  (
                                                    (0x4098, refl, λ v p. refl),
                                                    (
                                                      (0x409d, refl, λ v p. refl),
                                                      ((0x40a0, refl, λ v p. refl), tt),
                                                    ),
                                                  ),
                                                ),
                                              ),
                                            ),
                                          ),
                                        ),
                                      ),
                                    ),
                                  ),
                                ),
                              ),
                            ),
                          ),
                        ),
                      ),
                    ),
                  ),
                ),
              ),
            ),
          ),
        ),
      ),
    ),
  ),
)

pub catalog-Wired : All Wired catalog
catalog-Wired =
    All-append Wired string_fields
      (flag_fields ++ more_flag_fields ++ request_fields ++ limit_fields ++ rate_fields
        ++ service_fields)
      string_fields-Wired
      (All-append Wired flag_fields
        (more_flag_fields ++ request_fields ++ limit_fields ++ rate_fields ++ service_fields)
        flag_fields-Wired
        (All-append Wired more_flag_fields
          (request_fields ++ limit_fields ++ rate_fields ++ service_fields) more_flag_fields-Wired
          (All-append Wired request_fields (limit_fields ++ rate_fields ++ service_fields)
            request_fields-Wired
            (All-append Wired limit_fields (rate_fields ++ service_fields) limit_fields-Wired (
              All-append Wired rate_fields (service_fields) rate_fields-Wired
                (service_fields-Wired))))))
